-- ===== src/Snapshots/Listing.antt =====
-- List, State, States and the image usage scan of internal/snapshot/catalog/store.go.
use kuma_box.Prelude.{
  Has, ◌≡◌, sym, inl, inr, Bool, true, false, not, ◌&&◌, Option, none, some, List, [], arith,
  if◌then◌else◌, Text, text_eq, Option-cases,
}
use kuma_box.Errdefs.{Result, ok, ◌>>=◌, ◌>>◌, refuse_if, or_else, in_context, Result-cases}
use kuma_box.Types.Ids.{Digest, digest_string}
use kuma_box.Types.Snapshot.{Snapshot, parse_snapshot_id}
use kuma_box.Metadata.{Transaction, Store, Weather, scan, view, get}
use kuma_box.Metadata.Scans.{collecting, scan-Has, scan-asking}
use kuma_box.Metadata.Newest.{sort_newest, Has-sort_newest}
use kuma_box.Snapshots.Records.{SnapshotData, SnapshotCodecs, decode_snapshot}
use kuma_box.Snapshots.Operations.{snapshots, corrupt_snapshot, decode_data, load_data}

-- State: the publication facts that crash recovery needs.
pub record SnapshotState : Type 0 where
  pub id : Text
  pub ready : Bool
  pub deleting : Bool

abbrev pub state_of : SnapshotData → SnapshotState
state_of d = record { id = d.id; ready = d.ready; deleting = d.deleting }

module _ {Raw : Type 0} (c : SnapshotCodecs Raw) where
  -- A record under its own key.
  abbrev pub keyed : Text → Raw → Result SnapshotData
  keyed key raw = do
    d ← decode_data c raw
    refuse_if (not (text_eq d.id key)) corrupt_snapshot
    ok d

  -- The callback of List, for one record; `visible` is visibleAccess.
  unfoldable pub listed_data : (Snapshot → Snapshot) → Text → Raw → Result (Option Snapshot)
  listed_data visible key raw = do
    d ← keyed key raw
    if d.ready && not d.deleting then (do s ← decode_snapshot d; ok (some (visible s))) else ok none

  unfoldable pub list_data : (Snapshot → Snapshot) → Transaction Raw → Result (List Snapshot)
  list_data visible t = do
    rs ← scan t snapshots (collecting (listed_data visible)) []
    ok (sort_newest (λ s. s.created_at) (λ s. s.id) rs)

  -- List.
  unfoldable pub list_snapshots :
      (Snapshot → Snapshot) → Weather → Store Raw → Result (List Snapshot)
  unfolding list_data
  list_snapshots visible w store = in_context false (view w (list_data visible) store)

  -- The callback of States, for one record.
  unfoldable pub stated_data : Text → Raw → Result (Option SnapshotState)
  stated_data key raw = do
    d ← keyed key raw
    id ← or_else corrupt_snapshot (parse_snapshot_id key)
    ok (some (state_of d))

  -- States.
  unfoldable pub states_in : Transaction Raw → Result (List SnapshotState)
  states_in t = scan t snapshots (collecting stated_data) []

  abbrev state_at : Text → Option Raw → Result (Option SnapshotState)
  state_at id none = ok none
  state_at id (some raw) = do d ← keyed id raw; ok (some (state_of d))

  -- State.
  unfoldable pub state_in : Text → Transaction Raw → Result (Option SnapshotState)
  state_in id t = do raw ← get t snapshots id; state_at id raw

  unfoldable pub snapshot_state : Weather → Store Raw → Text → Result (Option SnapshotState)
  unfolding state_in
  snapshot_state w store id = do parsed ← parse_snapshot_id id; view w (state_in id) store

  -- Usage.InUse.
  unfoldable pub in_use_data : Transaction Raw → Digest → Result Bool
  in_use_data t digest =
      scan t snapshots
        (λ key raw used. do
          d ← decode_data c raw
          ok (if text_eq d.image_digest (digest_string digest) then true else used))
        false

  pub load_data-read :
      (t : Transaction Raw) (id : Text) (d : SnapshotData)
      → load_data c t id ≡ ok d
      → (raw : Raw) × (get t snapshots id ≡ ok (some raw)) × (decode_data c raw ≡ ok d)
  unfolding load_data
  load_data-read t id d h = elim (Result-cases (get t snapshots id)) [
    | inr (f, e) ↦ absurd (ground arith)
    | inl (stored, e) ↦ elim (Option-cases stored) [
      | inl g ↦ absurd (ground arith)
      | inr (raw, g) ↦ (raw, ground arith, ground arith)
    ]
  ]

  -- When the image usage scan of the snapshot catalog answers and a snapshot that loads, pending
  -- and deleting ones included, pins the image, the answer is yes.
  pub in_use_data-load_data :
      (digest : Digest) (t : Transaction Raw) (id : Text) (d : SnapshotData) (b : Bool)
      → load_data c t id ≡ ok d
      → text_eq d.image_digest (digest_string digest) ≡ true
      → in_use_data t digest ≡ ok b
      → b ≡ true
  unfolding in_use_data
  in_use_data-load_data digest t id d b loaded same h =
      let (raw, read, k) = load_data-read t id d loaded in
      scan-asking (decode_data c) (λ q. text_eq q.image_digest (digest_string digest)) t snapshots
        id raw d b read k same h

  listed_data-load_data :
      (visible : Snapshot → Snapshot) (id : Text) (d : SnapshotData) (s : Snapshot) (raw : Raw)
      → decode_data c raw ≡ ok d
      → text_eq d.id id ≡ true
      → d.ready ≡ true
      → d.deleting ≡ false
      → decode_snapshot d ≡ ok s
      → listed_data visible id raw ≡ ok (some (visible s))
  unfolding listed_data
  listed_data-load_data visible id d s raw k own r n e = simp (k, own, e, r, n)

  -- When List answers, every snapshot that loads under its own ID, is ready and is not being
  -- deleted is in the answer, with the usage time that a reader is told.
  pub list_data-Has :
      (visible : Snapshot → Snapshot) (t : Transaction Raw) (id : Text) (d : SnapshotData)
      (s : Snapshot) (out : List Snapshot)
      → load_data c t id ≡ ok d
      → text_eq d.id id ≡ true
      → d.ready ≡ true
      → d.deleting ≡ false
      → decode_snapshot d ≡ ok s
      → list_data visible t ≡ ok out
      → Has (visible s) out
  unfolding list_data
  list_data-Has visible t id d s out loaded own r n e h =
      elim (Result-cases (scan t snapshots (collecting (listed_data visible)) [])) [
        | inr (f, g) ↦ absurd (ground arith)
        | inl (found, g) ↦
            let (raw, stored, k) = load_data-read t id d loaded in
            let same : sort_newest (λ s. s.created_at) (λ s. s.id) found ≡ out = ground arith in
            rw (sym same) (
              Has-sort_newest (λ s. s.created_at) (λ s. s.id) (visible s) found
                (scan-Has (listed_data visible) t snapshots id raw (visible s) found stored
                  (listed_data-load_data visible id d s raw k own r n e) g))
      ]

  stated :
      (id parsed : Text) (s : SnapshotState) (raw : Raw)
      → parse_snapshot_id id ≡ ok parsed
      → state_at id (some raw) ≡ ok (some s)
      → stated_data id raw ≡ ok (some s)
  unfolding stated_data
  stated id parsed s raw p h = elim (Result-cases (keyed id raw)) [
    | inr (f, e) ↦ absurd (ground arith)
    | inl (d, e) ↦ let same : ok (some (state_of d)) ≡ ok (some s) = rw e at h in simp (e, p, same)
  ]

  -- When States answers and State reports a state of an ID that parses, pending and deleting ones
  -- included, that state is in the answer of States.
  pub states_in-state_in :
      (t : Transaction Raw) (id : Text) (parsed : Text) (s : SnapshotState)
      (out : List SnapshotState)
      → parse_snapshot_id id ≡ ok parsed
      → state_in id t ≡ ok (some s)
      → states_in t ≡ ok out
      → Has s out
  unfolding states_in state_in
  states_in-state_in t id parsed s out p h k = elim (Result-cases (get t snapshots id)) [
    | inr (f, e) ↦ absurd (ground arith)
    | inl (stored, e) ↦ elim (Option-cases stored) [
      | inl g ↦ absurd (ground arith)
      | inr (raw, g) ↦
          scan-Has stated_data t snapshots id raw s out (ground arith)
            (stated id parsed s raw p (ground arith)) k
    ]
  ]
