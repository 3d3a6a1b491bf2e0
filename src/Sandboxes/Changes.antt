-- ===== src/Sandboxes/Changes.antt =====
-- What each operation does to the record that it has loaded: an error, the record as it is (an
-- operation that resumes), or a new record to validate and write.
use kuma_box.Prelude.{
  ℕ, ◌+◌, Bool, true, false, not, ◌&&◌, ◌||◌, Option, none, List, [], ◌∷◌, ◌==◌, if◌then◌else◌,
  length, Text, text_eq, is_empty, pos, eq_int, u64,
}
use kuma_box.Errdefs.{
  Failure, Result, ok, failure, conflict, state_conflict, invalid, invalid_argument, ◌>>=◌, ◌>>◌,
  refuse_if,
}
use kuma_box.Types.Network.{unset, backend_eq, NetworkInterface, NetworkSetup, is_nil}
use kuma_box.Types.Sandbox.{
  SandboxState, creating, created, starting, running, stopping, stopped, error, deleting, state_eq,
  SandboxFailure, Sandbox,
}

pub data Change : Type 0 where
  keep : Change
  write : Sandbox → Change

abbrev pub stale : Failure
stale = failure conflict state_conflict

abbrev pub bad_request : Failure
bad_request = failure invalid invalid_argument

-- `record.State = ...; record.Generation++; record.Failure = ...; record.UpdatedAt = ...`.
abbrev pub moved : SandboxState → Option SandboxFailure → ℕ → Sandbox → Sandbox
moved to failed now r = record r {
  state = to;
  generation = u64 (r.generation + 1);
  failed = failed;
  updated_at = now;
}

-- transition.
unfoldable pub transition_change :
    SandboxState → SandboxState → Option SandboxFailure → ℕ → ℕ → Sandbox → Result Change
transition_change from to failed expected now r = do
  refuse_if (not (r.generation == expected) || not (state_eq r.state from)) stale
  ok (write (moved to failed now r))

abbrev may_start : SandboxState → Bool
may_start created = true
may_start stopped = true
may_start error = true
may_start _ = false

-- BeginStart.
unfoldable pub begin_start_change : ℕ → ℕ → Sandbox → Result Change
begin_start_change expected now r = do
  refuse_if (not (r.generation == expected)) stale
  if state_eq r.state starting
      then ok keep
      else do refuse_if (not (may_start r.state)) stale; ok (write (moved starting none now r))

-- BeginStop.
unfoldable pub begin_stop_change : ℕ → ℕ → Sandbox → Result Change
begin_stop_change expected now r = do
  refuse_if (not (r.generation == expected)) stale
  if state_eq r.state stopping then ok keep else do
    refuse_if (not (state_eq r.state running)) stale
    ok (write (moved stopping none now r))

abbrev may_delete : SandboxState → Bool
may_delete creating = true
may_delete created = true
may_delete stopped = true
may_delete error = true
may_delete _ = false

-- BeginDelete.
unfoldable pub begin_delete_change : ℕ → ℕ → Sandbox → Result Change
begin_delete_change expected now r = do
  refuse_if (not (r.generation == expected)) stale
  if state_eq r.state deleting
      then ok keep
      else do refuse_if (not (may_delete r.state)) stale; ok (write (moved deleting none now r))

-- The name of the first interface's network.
abbrev pub resolved_name : Text → List NetworkInterface → Text
resolved_name name [] = name
resolved_name name (i ∷ is) = i.network

-- The network part of MarkCreated: the name that the record gets.
unfoldable pub created_name : NetworkSetup → Sandbox → Result Text
created_name setup r =
    if eq_int r.config.nics (pos 0)
    then (do refuse_if (not (is_nil setup.interfaces)) bad_request; ok r.config.network_name)
    else do
      refuse_if
          (backend_eq setup.backend unset
            || not (eq_int (pos (length setup.interfaces)) r.config.nics))
          bad_request
      refuse_if
          (not (is_empty r.config.network_name)
            && not (text_eq r.config.network_name (resolved_name [] setup.interfaces)))
          stale
      ok (resolved_name [] setup.interfaces)

-- MarkCreated, after the setup was validated.
unfoldable pub mark_created_change : NetworkSetup → ℕ → ℕ → Sandbox → Result Change
mark_created_change setup expected now r = do
  refuse_if (not (r.generation == expected) || not (state_eq r.state creating)) stale
  name ← created_name setup r
  ok (
      write (record r {
        config = record r.config { network_name = name };
        network = setup;
        state = created;
        generation = u64 (r.generation + 1);
        updated_at = now;
      }))

-- UpdateNetwork, after the setup was validated. The generation stays, since it names the process.
unfoldable pub update_network_change : NetworkSetup → Text → ℕ → ℕ → Sandbox → Result Change
update_network_change setup name expected now r = do
  refuse_if (not (state_eq r.state running) || not (r.generation == expected)) stale
  refuse_if
      (not (backend_eq r.network.backend setup.backend)
        || not (text_eq r.network.namespace setup.namespace))
      stale
  refuse_if (not (is_empty r.config.network_name) && not (text_eq r.config.network_name name)) stale
  ok (
      write (record r {
        network = setup;
        config = record r.config { nics = pos (length setup.interfaces); network_name = name };
        updated_at = now;
      }))
