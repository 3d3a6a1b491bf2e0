-- ===== src/Sandboxes/Usage.antt =====
-- Usage.InUse, as the collection of unused images asks it: no reference is overlooked.
use kuma_box.Prelude.{◌≡◌, inl, inr, Bool, true, some, arith, Text, Option-cases}
use kuma_box.Errdefs.{ok, Result-cases}
use kuma_box.Types.Ids.{Digest, digest_eq}
use kuma_box.Types.Sandbox.{Sandbox}
use kuma_box.Metadata.{Transaction, get}
use kuma_box.Metadata.Scans.{scan-asking}
use kuma_box.Sandboxes.Records.{Codecs}
use kuma_box.Sandboxes.Decode.{decode}
use kuma_box.Sandboxes.Access.{sandboxes, load, in_use}

module _ {Raw : Type 0} (c : Codecs Raw) where
  -- A sandbox that loads is stored at its ID.
  pub load-read :
      (t : Transaction Raw) (id : Text) (r : Sandbox)
      → load c t id ≡ ok r
      → (raw : Raw) × (get t sandboxes id ≡ ok (some raw)) × (decode c raw ≡ ok r)
  unfolding load
  load-read t id r h = elim (Result-cases (get t sandboxes id)) [
    | inr (f, e) ↦ absurd (ground arith)
    | inl (stored, e) ↦ elim (Option-cases stored) [
      | inl g ↦ absurd (ground arith)
      | inr (raw, g) ↦ elim (Result-cases (decode c raw)) [
        | inr (f, k) ↦ absurd (ground arith)
        | inl (q, k) ↦ (raw, ground arith, ground arith)
      ]
    ]
  ]

  -- When the image usage scan answers and a sandbox that loads runs on the image, the answer is
  -- yes.
  pub in_use-load :
      (digest : Digest) (t : Transaction Raw) (id : Text) (r : Sandbox) (b : Bool)
      → load c t id ≡ ok r
      → digest_eq r.image_digest digest ≡ true
      → in_use c t digest ≡ ok b
      → b ≡ true
  unfolding in_use
  in_use-load digest t id r b loaded same h =
      let (raw, read, d) = load-read t id r loaded in
      scan-asking (decode c) (λ q. digest_eq q.image_digest digest) t sandboxes id raw r b read d
        same h
