-- ===== src/Sandboxes/Progress.antt =====
-- Which edits are sure to succeed.
use kuma_box.Prelude.{ℕ, ◌+◌, ◌≡◌, ◌≢◌, inl, inr, false, none, some, arith, Text, u64}
use kuma_box.Errdefs.{Result, ok, Result-cases}
use kuma_box.Types.Network.{Parsers}
use kuma_box.Types.Sandbox.{
  SandboxState, starting, running, stopping, Sandbox, IsValid, validate_sandbox-IsValid,
  lacks_facts, has_stray_interfaces, has_stray_name, validate_handoff, has_misplaced_failure,
}
use kuma_box.Metadata.{Transaction, Store, Weather, begin, get, put, collection, update, snapshot}
use kuma_box.Sandboxes.Records.{Codecs}
use kuma_box.Sandboxes.Decode.{encode}
use kuma_box.Sandboxes.Access.{sandboxes, load, put_record, save}
use kuma_box.Sandboxes.Changes.{Change, write, moved, begin_stop_change, transition_change}
use kuma_box.Sandboxes.Operations.{edit, apply_change, begin_stop, mark_running}
use kuma_box.Sandboxes.Saved.{load-IsLoaded}

-- Nothing disturbs the call: no context ends and the store stays open.
pub record IsQuiet {Raw : Type 0} (w : Weather) (s : Store Raw) : Type 0 where
  pub waiting : w.cancelled_waiting ≡ false
  pub running_callback : w.cancelled ≡ false
  pub committing : w.cancelled_commit ≡ false
  pub closing : w.closing ≡ false
  pub opened : s.closed ≡ false

-- A move from the starting to the running state, or from there to the stopping state.
abbrev Advances : SandboxState → SandboxState → Type 0
Advances starting running = Unit
Advances running stopping = Unit
Advances _ _ = ⊥

moved-IsValid :
    (p : Parsers) (r : Sandbox) (to : SandboxState) (now : ℕ)
    → IsValid p r
    → Advances r.state to
    → now ≢ 0
    → u64 (r.generation + 1) ≢ 0
    → IsValid p (moved to none now r)
unfolding lacks_facts has_stray_interfaces has_stray_name validate_handoff has_misplaced_failure
moved-IsValid p r to now v along timed counted = record {
  id = v.id;
  config = v.config;
  facts = ground (arith, v.facts);
  vmm = v.vmm;
  network = v.network;
  interfaces = v.interfaces;
  name = ground (arith, v.name);
  handoff = ground (arith, v.handoff);
  state = ground arith;
  failed = ground arith;
}

module _ {Raw : Type 0} (c : Codecs Raw) where
  put_record_total :
      (t : Transaction Raw) (id : Text) (r r' : Sandbox) (raw : Raw)
      → load c t id ≡ ok r
      → c.record_json.marshal (encode r') ≡ some raw
      → (t' : Transaction Raw) × (put_record c t r' ≡ ok t')
  unfolding load get put put_record
  put_record_total t id r r' raw h m = elim (Result-cases (collection t sandboxes)) [
    | inr (f, e) ↦ absurd (ground arith)
    | inl (entries, e) ↦ elim (Result-cases (put_record c t r')) [
      | inl (t', g) ↦ (t', g)
      | inr (f, g) ↦ absurd (ground arith)
    ]
  ]

  edit_total :
      (change : Sandbox → Result Change) (t : Transaction Raw) (id : Text) (r r' : Sandbox)
      (raw : Raw)
      → load c t id ≡ ok r
      → change r ≡ ok (write r')
      → IsValid c.parsers r'
      → c.record_json.marshal (encode r') ≡ some raw
      → (t' : Transaction Raw) × (edit c change id t ≡ ok (r', t'))
  unfolding edit apply_change save
  edit_total change t id r r' raw h d v m =
      let (t', e) = put_record_total t id r r' raw h m in
      (t', rw (h, edit, d, (validate_sandbox-IsValid c.parsers r').1 v, e))

  update_total :
      {A : Type 0} (w : Weather) (s : Store Raw)
      (body : Transaction Raw → Result (A × Transaction Raw)) (a : A) (t' : Transaction Raw)
      → IsQuiet w s
      → body (begin false s) ≡ ok (a, t')
      → (update w body s).0 ≡ ok a
  unfolding update snapshot
  update_total w s body a t' q h =
      rw (q.waiting, update, q.running_callback, q.opened, snapshot, h, q.committing, q.closing)

  module _ (w : Weather) (s : Store Raw) (id : Text) (now : ℕ) (r : Sandbox) (raw : Raw) where
    -- When no context ends, the store stays open and the new record marshals, BeginStop of a
    -- running sandbox under its own generation, at a time that is not zero and with a next
    -- generation that does not wrap to zero, succeeds with that sandbox in the stopping state.
    pub begin_stop_total :
        IsQuiet w s
        → load c (begin false s) id ≡ ok r
        → r.state ≡ running
        → now ≢ 0
        → u64 (r.generation + 1) ≢ 0
        → c.record_json.marshal (encode (moved stopping none now r)) ≡ some raw
        → (begin_stop c w s id r.generation now).0 ≡ ok (moved stopping none now r)
    unfolding begin_stop begin_stop_change
    begin_stop_total q h is_running timed counted m =
        let v = (load-IsLoaded c (begin false s) id r h).valid in
        let new = moved-IsValid c.parsers r stopping now v (rw is_running tt) timed counted in
        let decided : begin_stop_change r.generation now r
            ≡ ok (write (moved stopping none now r)) =
          ground (arith, is_running) in
        let (t', e) =
          edit_total (begin_stop_change r.generation now) (begin false s) id r
            (moved stopping none now r) raw h decided new m in
        rw (
          update_total w s (edit c (begin_stop_change r.generation now) id)
            (moved stopping none now r) t' q e)

    -- A process that came up is recorded: in a quiet store with a time and a next generation,
    -- MarkRunning of a starting sandbox succeeds.
    mark_running_total :
        IsQuiet w s
        → load c (begin false s) id ≡ ok r
        → r.state ≡ starting
        → now ≢ 0
        → u64 (r.generation + 1) ≢ 0
        → c.record_json.marshal (encode (moved running none now r)) ≡ some raw
        → (mark_running c w s id r.generation now).0 ≡ ok (moved running none now r)
    unfolding mark_running transition_change
    mark_running_total q h is_starting timed counted m =
        let v = (load-IsLoaded c (begin false s) id r h).valid in
        let new = moved-IsValid c.parsers r running now v (rw is_starting tt) timed counted in
        let change = transition_change starting running none r.generation now in
        let decided : change r ≡ ok (write (moved running none now r)) =
          ground (arith, is_starting) in
        let (t', e) =
          edit_total change (begin false s) id r (moved running none now r) raw h decided new m in
        rw (update_total w s (edit c change id) (moved running none now r) t' q e)
