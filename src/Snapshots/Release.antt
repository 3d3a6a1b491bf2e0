-- ===== src/Snapshots/Release.antt =====
-- What Forget, FinalizeDelete and Touch leave in the store.
use kuma_box.Prelude.{
  ℕ, ◌≤◌, ◌≡◌, refl, sym, ap, subst, ◌∙◌, inl, inr, true, false, none, arith, ltb, ◌==◌, Text,
  text_eq, text_eq_refl, is_empty, Bool-cases,
}
use kuma_box.Errdefs.{ok, err, refuse_if, Result-cases}
use kuma_box.Types.Snapshot.{Snapshot}
use kuma_box.Metadata.{Transaction, Store, Weather, begin, get, delete, update}
use kuma_box.Metadata.Laws.{get-delete, delete-cancelled}
use kuma_box.Snapshots.Records.{SnapshotData, SnapshotCodecs, decode_snapshot, access_time}
use kuma_box.Snapshots.Operations.{
  snapshots, snapshot_names, unknown_snapshot, bad_time, load_data, put_data, touch_data,
  touch_snapshot, release, finalize_data, finalize_delete_snapshot, finished,
}
use kuma_box.Snapshots.Effects.{put_data-IsWritten, after-eq-ok, update-ran}

collections_differ :
    (text_eq snapshots snapshot_names ≡ false) × (text_eq snapshot_names snapshots ≡ false)
unfolding text_eq
collections_differ = (refl, refl)

module _ {Raw : Type 0} (c : SnapshotCodecs Raw) where
  -- A record that is gone, with its name.
  pub record IsReleased (t : Transaction Raw) (id : Text) (t' : Transaction Raw) : Type 0 where
    pub before : SnapshotData
    pub loaded : load_data c t id ≡ ok before
    pub gone : load_data c t' id ≡ err unknown_snapshot
    pub free : is_empty before.name ≡ false → get t' snapshot_names before.name ≡ ok none
    pub elsewhere : (j : Text) → text_eq id j ≡ false → load_data c t' j ≡ load_data c t j

  record IsDropped (t : Transaction Raw) (name id : Text) (t' : Transaction Raw) : Type 0 where
    live : t'.cancelled ≡ t.cancelled
    gone : get t' snapshots id ≡ ok none
    free : is_empty name ≡ false → get t' snapshot_names name ≡ ok none
    elsewhere : (j : Text) → text_eq id j ≡ false → get t' snapshots j ≡ get t snapshots j

  delete_both-IsDropped :
      (t t1 t' : Transaction Raw) (name id : Text)
      → delete t snapshot_names name ≡ ok t1
      → delete t1 snapshots id ≡ ok t'
      → IsDropped t name id t'
  delete_both-IsDropped t t1 t' name id p q = record {
    live = delete-cancelled t1 t' snapshots id q ∙ delete-cancelled t t1 snapshot_names name p;
    gone =
        rw (get-delete t1 t' snapshots snapshots id id q, text_eq_refl snapshots, text_eq_refl id);
    free = λ named. rw (
      get-delete t1 t' snapshots snapshot_names id name q,
      collections_differ.0,
      get-delete t t1 snapshot_names snapshot_names name name p,
      text_eq_refl snapshot_names,
      text_eq_refl name,
    );
    elsewhere = λ j ne. rw (
      get-delete t1 t' snapshots snapshots id j q,
      text_eq_refl snapshots,
      ne,
      get-delete t t1 snapshot_names snapshots name j p,
      collections_differ.1,
    );
  }

  release-IsDropped :
      (t : Transaction Raw) (name id : Text) (t' : Transaction Raw)
      → release c t name id ≡ ok (tt, t')
      → IsDropped t name id t'
  unfolding release
  release-IsDropped t name id t' h = elim (Bool-cases (is_empty name)) [
    | inl unnamed ↦ elim (Result-cases (delete t snapshots id)) [
      | inr (f, e) ↦ absurd (ground arith)
      | inl (t1, e) ↦
          let q : delete t snapshots id ≡ ok t' = ground arith in
          record {
            live = delete-cancelled t t' snapshots id q;
            gone = rw (
              get-delete t t' snapshots snapshots id id q,
              text_eq_refl snapshots,
              text_eq_refl id,
            );
            free = λ named. absurd (ground arith);
            elsewhere =
                λ j ne. rw (get-delete t t' snapshots snapshots id j q, text_eq_refl snapshots, ne);
          }
    ]
    | inr named ↦ elim (Result-cases (delete t snapshot_names name)) [
      | inr (f, e) ↦ absurd (ground arith)
      | inl (t1, e) ↦ elim (Result-cases (delete t1 snapshots id)) [
        | inr (f, g) ↦ absurd (ground arith)
        | inl (t2, g) ↦ delete_both-IsDropped t t1 t' name id e (ground arith)
      ]
    ]
  ]

  finalize_data-IsReleased :
      (id : Text) (t t' : Transaction Raw)
      → finalize_data c id t ≡ ok (tt, t')
      → (t'.cancelled ≡ t.cancelled) × (r : IsReleased t id t') × (r.before.deleting ≡ true)
  unfolding finalize_data load_data
  finalize_data-IsReleased id t t' h = elim (Result-cases (load_data c t id)) [
    | inr (f, e) ↦ absurd (ground arith)
    | inl (d, e) ↦
        let dropped : release c t d.name id ≡ ok (tt, t') = ground arith in
        let a = release-IsDropped t d.name id t' dropped in
        (
          a.live,
          record {
            before = d;
            loaded = e;
            gone = rw (a.gone);
            free = a.free;
            elsewhere = λ j ne. rw (a.elsewhere j ne);
          },
          ground arith,
        )
  ]

  -- The end of a deletion succeeds only for a record that was marked as deleting; afterwards the
  -- record is gone, its name, if it has one, is free, and every other record loads as before.
  pub finalize_delete_snapshot-IsReleased :
      (w : Weather) (store store' : Store Raw) (id : Text)
      → finalize_delete_snapshot c w store id ≡ (ok tt, store')
      → (r : IsReleased (begin false store) id (begin false store')) × (r.before.deleting ≡ true)
  unfolding finalize_delete_snapshot
  finalize_delete_snapshot-IsReleased w store store' id h =
      let (t', body, left) = update-ran c w store store' true (finalize_data c id) tt h in
      let (live, r, was) = finalize_data-IsReleased id (begin false store) t' body in
      subst (λ t. (q : IsReleased (begin false store) id t) × (q.before.deleting ≡ true))
        (sym (left live)) (r, was)

  -- A use that was recorded.
  pub record IsTouched (t : Transaction Raw) (id : Text) (accessed : ℕ) (s : Snapshot)
      (t' : Transaction Raw) : Type 0 where
    pub before : SnapshotData
    pub after' : SnapshotData
    pub loaded : load_data c t id ≡ ok before
    pub stored : load_data c t' id ≡ ok after'
    pub decodes : decode_snapshot after' ≡ ok s
    pub ready : (before.ready ≡ true) × (after'.ready ≡ true)
    pub deleting : after'.deleting ≡ before.deleting
    pub later : (accessed ≤ access_time after') × (access_time before ≤ access_time after')
    pub elsewhere : (j : Text) → text_eq id j ≡ false → load_data c t' j ≡ load_data c t j

  touch_data-IsTouched :
      (id : Text) (accessed : ℕ) (t : Transaction Raw) (s : Snapshot) (t' : Transaction Raw)
      → touch_data c id accessed t ≡ ok (s, t')
      → (t'.cancelled ≡ t.cancelled) × IsTouched t id accessed s t'
  unfolding touch_data
  touch_data-IsTouched id accessed t s t' h = elim (Result-cases (load_data c t id)) [
    | inr (f, e) ↦ absurd (ground arith)
    | inl (d, e) ↦
        let d' : SnapshotData = record d { last_accessed_at = accessed } in
        elim (Bool-cases (ltb (access_time d) accessed)) [
          | inl newer ↦ elim (Result-cases (put_data c t id d')) [
            | inr (f, g) ↦ absurd (ground arith)
            | inl (t1, g) ↦ elim (Result-cases (decode_snapshot d')) [
              | inr (f, k) ↦ absurd (ground arith)
              | inl (s0, k) ↦
                  let w = put_data-IsWritten c t id d' s0 t' k (ground arith) in
                  (
                    w.live,
                    record {
                      before = d;
                      after' = d';
                      loaded = e;
                      stored = w.here;
                      decodes = ground arith;
                      ready = ground arith;
                      deleting = refl;
                      later = ground arith;
                      elsewhere = w.elsewhere;
                    },
                  )
            ]
          ]
          | inr same ↦ elim (Result-cases (decode_snapshot d)) [
            | inr (f, g) ↦ absurd (ground arith)
            | inl (s0, g) ↦
                let stays : t ≡ t' = ground arith in
                (
                  ap (λ (q : Transaction Raw). q.cancelled) (sym stays),
                  subst (IsTouched t id accessed s) stays (record {
                    before = d;
                    after' = d;
                    loaded = e;
                    stored = e;
                    decodes = ground arith;
                    ready = ground arith;
                    deleting = refl;
                    later = ground arith;
                    elsewhere = λ j ne. refl;
                  }),
                )
          ]
        ]
  ]

  -- A use that is recorded finds a ready record and keeps it ready; its access time afterwards is
  -- no earlier than the one given nor than the one it had, a deletion mark stays as it was, the
  -- record decodes to the snapshot returned, and every other record loads as before.
  pub touch_snapshot-IsTouched :
      (w : Weather) (store store' : Store Raw) (id : Text) (accessed : ℕ) (s : Snapshot)
      → touch_snapshot c w store id accessed ≡ (ok s, store')
      → IsTouched (begin false store) id accessed s (begin false store')
  unfolding touch_snapshot
  touch_snapshot-IsTouched w store store' id accessed s h =
      let ran =
        after-eq-ok c (refuse_if (accessed == 0) bad_time) store store'
          (finished false (update w (touch_data c id accessed) store)) s h in
      let (t', body, left) = update-ran c w store store' false (touch_data c id accessed) s ran in
      let (live, touched) = touch_data-IsTouched id accessed (begin false store) s t' body in
      subst (IsTouched (begin false store) id accessed s) (sym (left live)) touched
