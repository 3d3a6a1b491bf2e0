-- ===== src/Sandboxes/Fencing.antt =====
-- The generation as a fence: which edits under one generation can follow each other.
use kuma_box.Types.Sandbox.{Sandbox}
