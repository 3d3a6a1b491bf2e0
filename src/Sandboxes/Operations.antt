-- ===== src/Sandboxes/Operations.antt =====
-- The catalog's operations, each one update or view of the store. `Weather` says what the store's
-- context and lock checks see.
use kuma_box.Prelude.{ℕ, Bool, true, false, not, ◌&&◌, ◌||◌, none, some, ◌==◌, Text, is_empty}
use kuma_box.Errdefs.{
  Result, ok, err, failure, conflict, name_taken, ◌>>=◌, ◌>>◌, refuse_if, or_else, in_context,
}
use kuma_box.Types.Ids.{Digest, digest_eq}
use kuma_box.Types.Network.{NetworkSetup, validate_setup}
use kuma_box.Types.Sandbox.{
  SandboxState, creating, starting, running, stopping, stopped, error, deleting, state_eq,
  SandboxFailure, Sandbox, validate_sandbox, is_some,
}
use kuma_box.Metadata.{Transaction, Store, Weather, get, view, update}
use kuma_box.Sandboxes.Records.{Codecs}
use kuma_box.Sandboxes.Access.{
  sandboxes, load, put_record, put_name, save, name_owner, resolve_record, delete_record,
}
use kuma_box.Sandboxes.Changes.{
  Change, keep, write, stale, bad_request, transition_change, begin_start_change, begin_stop_change,
  begin_delete_change, mark_created_change, update_network_change,
}

-- The image reader of the reservation: what the image's catalog resolves a reference to.
abbrev pub ImageReader : Type 0 → Type 0
ImageReader Raw = Transaction Raw → Text → Result Digest

abbrev pub in_store {ℓ} : {A B : Type ℓ} → Result A × B → Result A × B
in_store (r, s) = (in_context false r, s)

abbrev pub is_reservation : Digest → Sandbox → Bool
is_reservation expected r =
    state_eq r.state creating && r.generation == 1 && digest_eq r.image_digest expected

abbrev pub lacks_text : SandboxFailure → Bool
lacks_text f = is_empty f.phase || is_empty f.message

abbrev pub may_stop : SandboxState → Bool
may_stop starting = true
may_stop running = true
may_stop stopping = true
may_stop _ = false

-- A check that the operation makes before it opens the store.
abbrev pub after_check {ℓ} : {A B : Type ℓ} → Result (Unit {0}) → B → Result A × B → Result A × B
after_check (err e) s rest = (err e, s)
after_check (ok _) s rest = rest

module _ {Raw : Type 0} (c : Codecs Raw) where
  -- What the callbacks of the edits share: load, decide, and save unless nothing is to change.
  unfoldable pub apply_change :
      Transaction Raw → Sandbox → Change → Result (Sandbox × Transaction Raw)
  apply_change t r keep = ok (r, t)
  apply_change t r (write r') = save c t r'

  unfoldable pub edit :
      (Sandbox → Result Change) → Text → Transaction Raw → Result (Sandbox × Transaction Raw)
  unfolding apply_change
  edit change id t = do r ← load c t id; decided ← change r; apply_change t r decided

  abbrev run_edit :
      (Sandbox → Result Change) → Weather → Store Raw → Text → Result Sandbox × Store Raw
  run_edit change w s id = in_store (update w (edit change id) s)

  unfoldable pub reserve_in :
      ImageReader Raw
      → Text
      → Digest
      → Sandbox
      → Transaction Raw
      → Result (Unit {0} × Transaction Raw)
  reserve_in images reference expected r t = do
    image ← images t reference
    refuse_if (not (digest_eq image expected)) stale
    existing ← get t sandboxes r.id
    refuse_if (is_some existing) stale
    owner ← name_owner c t r.config.name
    refuse_if (is_some owner) (failure conflict name_taken)
    t' ← put_record c t r
    t'' ← put_name c t' r.config.name r.id
    ok (tt, t'')

  -- Reserve.
  unfoldable pub reserve :
      ImageReader Raw
      → Weather
      → Store Raw
      → Text
      → Digest
      → Sandbox
      → Result (Unit {0}) × Store Raw
  unfolding reserve_in
  reserve images w s reference expected r =
      after_check
        (do
          or_else bad_request (validate_sandbox c.parsers r)
          refuse_if (not (is_reservation expected r)) bad_request)
        s (in_store (update w (reserve_in images reference expected r) s))

  -- MarkCreated.
  unfoldable pub mark_created :
      Weather → Store Raw → Text → ℕ → NetworkSetup → ℕ → Result Sandbox × Store Raw
  mark_created w s id expected setup now =
      after_check (or_else bad_request (validate_setup c.parsers setup)) s
        (run_edit (mark_created_change setup expected now) w s id)

  -- MarkError.
  unfoldable pub mark_error :
      Weather → Store Raw → Text → ℕ → SandboxFailure → ℕ → Result Sandbox × Store Raw
  mark_error w s id expected f now =
      after_check (refuse_if (lacks_text f) bad_request) s
        (run_edit (transition_change creating error (some f) expected now) w s id)

  -- BeginStart.
  unfoldable pub begin_start : Weather → Store Raw → Text → ℕ → ℕ → Result Sandbox × Store Raw
  begin_start w s id expected now = run_edit (begin_start_change expected now) w s id

  -- MarkRunning.
  unfoldable pub mark_running : Weather → Store Raw → Text → ℕ → ℕ → Result Sandbox × Store Raw
  mark_running w s id expected now =
      run_edit (transition_change starting running none expected now) w s id

  -- UpdateNetwork.
  unfoldable pub update_network :
      Weather → Store Raw → Text → ℕ → NetworkSetup → Text → ℕ → Result Sandbox × Store Raw
  update_network w s id expected setup name now =
      after_check (or_else bad_request (validate_setup c.parsers setup)) s
        (run_edit (update_network_change setup name expected now) w s id)

  -- MarkStartError.
  unfoldable pub mark_start_error :
      Weather → Store Raw → Text → ℕ → SandboxFailure → ℕ → Result Sandbox × Store Raw
  mark_start_error w s id expected f now =
      after_check (refuse_if (lacks_text f) bad_request) s
        (run_edit (transition_change starting error (some f) expected now) w s id)

  -- BeginStop.
  unfoldable pub begin_stop : Weather → Store Raw → Text → ℕ → ℕ → Result Sandbox × Store Raw
  begin_stop w s id expected now = run_edit (begin_stop_change expected now) w s id

  -- MarkStopped.
  unfoldable pub mark_stopped :
      Weather → Store Raw → Text → ℕ → SandboxState → ℕ → Result Sandbox × Store Raw
  mark_stopped w s id expected from now =
      after_check (refuse_if (not (may_stop from)) bad_request) s
        (run_edit (transition_change from stopped none expected now) w s id)

  -- BeginDelete.
  unfoldable pub begin_delete : Weather → Store Raw → Text → ℕ → ℕ → Result Sandbox × Store Raw
  begin_delete w s id expected now = run_edit (begin_delete_change expected now) w s id

  -- The callbacks of FinalizeDelete and Forget.
  unfoldable pub remove_from :
      SandboxState → Text → ℕ → Transaction Raw → Result (Unit {0} × Transaction Raw)
  remove_from state id expected t = do
    r ← load c t id
    refuse_if (not (r.generation == expected) || not (state_eq r.state state)) stale
    t' ← delete_record c t r
    ok (tt, t')

  -- FinalizeDelete.
  unfoldable pub finalize_delete : Weather → Store Raw → Text → ℕ → Result (Unit {0}) × Store Raw
  unfolding remove_from
  finalize_delete w s id expected = in_store (update w (remove_from deleting id expected) s)

  -- Forget.
  unfoldable pub forget : Weather → Store Raw → Text → ℕ → Result (Unit {0}) × Store Raw
  unfolding remove_from
  forget w s id expected = in_store (update w (remove_from creating id expected) s)

  -- Resolve.
  unfoldable pub resolve : Weather → Store Raw → Text → Result Sandbox
  resolve w s reference = in_context false (view w (λ t. resolve_record c t reference) s)
