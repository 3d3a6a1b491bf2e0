-- ===== src/Snapshots/Operations.antt =====
-- The catalog's operations without an access buffer, each one update or view of the store.
use kuma_box.Prelude.{
  ℕ, Bool, true, false, not, ◌||◌, Option, none, some, ◌==◌, ltb, if◌then◌else◌, Text, text,
  is_empty, ℤ,
}
use kuma_box.Errdefs.{
  Failure, Result, ok, err, plain, failure, not_found, missing, invalid, invalid_argument, conflict,
  name_taken, state_conflict, corrupt, artifact_corrupt, ◌>>=◌, ◌>>◌, refuse_if, or_else,
  in_context,
}
use kuma_box.Types.Sandbox.{is_some}
use kuma_box.Types.Snapshot.{Snapshot, parse_snapshot_id, validate_snapshot}
use kuma_box.Metadata.{Transaction, Store, Weather, get, put, delete, view, update}
use kuma_box.Snapshots.Records.{
  SnapshotData, SnapshotCodecs, encode_snapshot, decode_snapshot, access_time,
}

abbrev pub snapshots : Text
snapshots = text "snapshots"

abbrev pub snapshot_names : Text
snapshot_names = text "snapshot_names"

abbrev pub unknown_snapshot : Failure
unknown_snapshot = failure not_found missing

abbrev pub corrupt_snapshot : Failure
corrupt_snapshot = failure corrupt artifact_corrupt

abbrev pub taken : Failure
taken = failure conflict name_taken

abbrev pub wrong_state : Failure
wrong_state = failure conflict state_conflict

abbrev pub bad_time : Failure
bad_time = failure invalid invalid_argument

abbrev pub found {ℓ} : {A : Type ℓ} → Failure → Option A → Result A
found e none = err e
found e (some a) = ok a

-- The deferred errdefs.WithContext of a method, and a check before the store is opened.
abbrev pub finished {ℓ} : {A B : Type ℓ} → Bool → Result A × B → Result A × B
finished committed (r, s) = (in_context committed r, s)

abbrev pub after {ℓ} : {A B : Type ℓ} → Result (Unit {0}) → B → Result A × B → Result A × B
after (err e) s rest = (err e, s)
after (ok _) s rest = rest

module _ {Raw : Type 0} (c : SnapshotCodecs Raw) where
  -- decode.
  unfoldable pub decode_data : Raw → Result SnapshotData
  decode_data raw = do
    d ← found corrupt_snapshot (c.record_json.unmarshal raw)
    s ← or_else corrupt_snapshot (decode_snapshot d)
    ok d

  -- load.
  unfoldable pub load_data : Transaction Raw → Text → Result SnapshotData
  unfolding decode_data
  load_data t id = do
    raw ← get t snapshots id
    stored ← found unknown_snapshot raw
    decode_data stored

  unfoldable pub put_data : Transaction Raw → Text → SnapshotData → Result (Transaction Raw)
  put_data t id d = do raw ← found plain (c.record_json.marshal d); put t snapshots id raw

  abbrev load_named : Transaction Raw → Raw → Result SnapshotData
  load_named t stored = do
    binding ← found corrupt_snapshot (c.name_json.unmarshal stored)
    refuse_if (is_empty binding.id) corrupt_snapshot
    id ← or_else corrupt_snapshot (parse_snapshot_id binding.id)
    load_data t id

  abbrev load_by_id : Transaction Raw → Text → Result SnapshotData
  load_by_id t reference = do
    id ← or_else unknown_snapshot (parse_snapshot_id reference)
    load_data t id

  -- resolve: a name first, then a complete ID.
  unfoldable pub resolve_data : Transaction Raw → Text → Result SnapshotData
  resolve_data t reference = do
    refuse_if (is_empty reference) bad_time
    bound ← get t snapshot_names reference
    elim bound [ none ↦ load_by_id t reference | some stored ↦ load_named t stored ]

  -- The name part of Reserve, for a name that is not empty.
  unfoldable pub bind_name : Transaction Raw → Text → Text → Result (Transaction Raw)
  bind_name t name id = do
    bound ← get t snapshot_names name
    refuse_if (is_some bound) taken
    raw ← found plain (c.name_json.marshal (record { id = id }))
    put t snapshot_names name raw

  -- The callback of Reserve.
  unfoldable pub reserve_data : Snapshot → Transaction Raw → Result (Unit {0} × Transaction Raw)
  unfolding bind_name put_data
  reserve_data s t = do
    existing ← get t snapshots s.id
    refuse_if (is_some existing) taken
    named ← (if is_empty s.name then ok t else bind_name t s.name s.id)
    t' ← put_data named s.id (encode_snapshot s false)
    ok (tt, t')

  -- The callback of Commit.
  unfoldable pub commit_data : Text → ℤ → ℕ → Transaction Raw → Result (Snapshot × Transaction Raw)
  unfolding load_data put_data
  commit_data id size accessed t = do
    d ← load_data t id
    if d.ready then (do s ← decode_snapshot d; ok (s, t)) else do
      s ← decode_snapshot (record d { size = size; last_accessed_at = accessed })
      t' ← put_data t id (record d { size = size; last_accessed_at = accessed; ready = true })
      ok (s, t')

  -- The callback of Touch.
  unfoldable pub touch_data : Text → ℕ → Transaction Raw → Result (Snapshot × Transaction Raw)
  unfolding load_data put_data
  touch_data id accessed t = do
    d ← load_data t id
    refuse_if (not d.ready) unknown_snapshot
    if ltb (access_time d) accessed
        then (do
          t' ← put_data t id (record d { last_accessed_at = accessed })
          s ← decode_snapshot (record d { last_accessed_at = accessed })
          ok (s, t'))
        else do s ← decode_snapshot d; ok (s, t)

  -- The tail of Forget and FinalizeDelete.
  unfoldable pub release : Transaction Raw → Text → Text → Result (Unit {0} × Transaction Raw)
  release t name id = do
    unnamed ← (if is_empty name then ok t else delete t snapshot_names name)
    t' ← delete unnamed snapshots id
    ok (tt, t')

  -- The callback of Forget.
  unfoldable pub forget_data : Text → Transaction Raw → Result (Unit {0} × Transaction Raw)
  unfolding load_data release
  forget_data id t = do d ← load_data t id; refuse_if d.ready wrong_state; release t d.name id

  -- The callback of FinalizeDelete.
  unfoldable pub finalize_data : Text → Transaction Raw → Result (Unit {0} × Transaction Raw)
  unfolding load_data release
  finalize_data id t = do
    d ← load_data t id
    refuse_if (not d.deleting) wrong_state
    release t d.name id

  -- The callback of BeginDelete.
  unfoldable pub begin_delete_data : Text → Transaction Raw → Result (Snapshot × Transaction Raw)
  unfolding resolve_data put_data
  begin_delete_data reference t = do
    d ← resolve_data t reference
    refuse_if (not d.ready) unknown_snapshot
    s ← decode_snapshot d
    if d.deleting
        then ok (s, t)
        else do t' ← put_data t d.id (record d { deleting = true }); ok (s, t')

  -- The callback of Resolve.
  unfoldable pub find_data : Text → Transaction Raw → Result Snapshot
  unfolding resolve_data
  find_data reference t = do
    d ← resolve_data t reference
    refuse_if (not d.ready || d.deleting) unknown_snapshot
    decode_snapshot d

  -- Reserve.
  unfoldable pub reserve_snapshot : Weather → Store Raw → Snapshot → Result (Unit {0}) × Store Raw
  unfolding reserve_data
  reserve_snapshot w store s =
      after (or_else bad_time (validate_snapshot s)) store
        (finished false (update w (reserve_data s) store))

  -- Commit.
  unfoldable pub commit_snapshot : Weather → Store Raw → Text → ℤ → ℕ → Result Snapshot × Store Raw
  unfolding commit_data
  commit_snapshot w store id size accessed =
      after (refuse_if (accessed == 0) bad_time) store
        (finished true (update w (commit_data id size accessed) store))

  -- Touch, of a catalog without an access buffer.
  unfoldable pub touch_snapshot : Weather → Store Raw → Text → ℕ → Result Snapshot × Store Raw
  unfolding touch_data
  touch_snapshot w store id accessed =
      after (refuse_if (accessed == 0) bad_time) store
        (finished false (update w (touch_data id accessed) store))

  -- Forget.
  unfoldable pub forget_snapshot : Weather → Store Raw → Text → Result (Unit {0}) × Store Raw
  unfolding forget_data
  forget_snapshot w store id = update w (forget_data id) store

  -- BeginDelete.
  unfoldable pub begin_delete_snapshot : Weather → Store Raw → Text → Result Snapshot × Store Raw
  unfolding begin_delete_data
  begin_delete_snapshot w store reference =
      finished false (update w (begin_delete_data reference) store)

  -- FinalizeDelete.
  unfoldable pub finalize_delete_snapshot :
      Weather → Store Raw → Text → Result (Unit {0}) × Store Raw
  unfolding finalize_data
  finalize_delete_snapshot w store id = finished true (update w (finalize_data id) store)

  -- Resolve.
  unfoldable pub resolve_snapshot : Weather → Store Raw → Text → Result Snapshot
  unfolding find_data
  resolve_snapshot w store reference = in_context false (view w (find_data reference) store)
