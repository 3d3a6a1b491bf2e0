-- ===== src/Snapshots/Effects.antt =====
-- What the catalog's calls leave in the store.
use kuma_box.Prelude.{
  ℕ, ◌≡◌, ◌≢◌, refl, sym, ap, subst, ◌∙◌, inl, inr, Bool, true, false, some, arith, ◌==◌, Text,
  text_eq, text_eq_refl, ℤ, Option-cases, Bool-cases,
}
use kuma_box.Errdefs.{Failure, Result, ok, err, refuse_if, in_context-eq-ok, Result-cases}
use kuma_box.Types.Snapshot.{Snapshot}
use kuma_box.Metadata.{Transaction, Store, Weather, begin, put, update}
use kuma_box.Metadata.Laws.{begin-live, get-put, put-cancelled, update-eq-ok}
use kuma_box.Snapshots.Records.{SnapshotData, SnapshotCodecs, decode_snapshot}
use kuma_box.Snapshots.Operations.{
  snapshots, bad_time, decode_data, load_data, put_data, commit_data, commit_snapshot, finished,
  after,
}

module _ {Raw : Type 0} (c : SnapshotCodecs Raw) where
  -- A write of one record.
  pub record IsWritten (t : Transaction Raw) (id : Text) (d : SnapshotData) (t' : Transaction Raw)
      : Type 0 where
    pub live : t'.cancelled ≡ t.cancelled
    pub here : load_data c t' id ≡ ok d
    pub elsewhere : (j : Text) → text_eq id j ≡ false → load_data c t' j ≡ load_data c t j

  put_data-eq-ok :
      (t : Transaction Raw) (id : Text) (d : SnapshotData) (t' : Transaction Raw)
      → put_data c t id d ≡ ok t'
      → (raw : Raw) × (c.record_json.marshal d ≡ some raw) × (put t snapshots id raw ≡ ok t')
  unfolding put_data
  put_data-eq-ok t id d t' h = elim (Option-cases (c.record_json.marshal d)) [
    | inl e ↦ absurd (ground arith)
    | inr (raw, e) ↦ (raw, e, ground arith)
  ]

  pub put_data-IsWritten :
      (t : Transaction Raw) (id : Text) (d : SnapshotData) (s : Snapshot) (t' : Transaction Raw)
      → decode_snapshot d ≡ ok s
      → put_data c t id d ≡ ok t'
      → IsWritten t id d t'
  unfolding load_data decode_data
  put_data-IsWritten t id d s t' fits h = record {
    live = put-cancelled t t' snapshots id raw p;
    here = rw (
      get-put t t' snapshots snapshots id id raw p,
      text_eq_refl snapshots,
      text_eq_refl id,
      c.record_json.unmarshal-marshal d raw m,
      fits,
    );
    elsewhere =
        λ j ne. rw (get-put t t' snapshots snapshots id j raw p, text_eq_refl snapshots, ne);
  }
    where
      raw : Raw
      raw = (put_data-eq-ok t id d t' h).0

      m : c.record_json.marshal d ≡ some raw
      m = (put_data-eq-ok t id d t' h).1

      p : put t snapshots id raw ≡ ok t'
      p = (put_data-eq-ok t id d t' h).2

  -- After a publication: the record under the ID is ready and decodes to the snapshot returned.
  pub record IsPublished (t : Transaction Raw) (id : Text) (s : Snapshot) (t' : Transaction Raw)
      : Type 0 where
    pub data' : SnapshotData
    pub stored : load_data c t' id ≡ ok data'
    pub ready : data'.ready ≡ true
    pub decodes : decode_snapshot data' ≡ ok s
    pub elsewhere : (j : Text) → text_eq id j ≡ false → load_data c t' j ≡ load_data c t j

  decode_ready :
      (d : SnapshotData) (size : ℤ) (accessed : ℕ)
      → decode_snapshot (record d { size = size; last_accessed_at = accessed; ready = true })
        ≡ decode_snapshot (record d { size = size; last_accessed_at = accessed })
  unfolding decode_snapshot
  decode_ready d size accessed = refl

  commit_data-IsPublished :
      (id : Text) (size : ℤ) (accessed : ℕ) (t : Transaction Raw) (s : Snapshot)
      (t' : Transaction Raw)
      → commit_data c id size accessed t ≡ ok (s, t')
      → (t'.cancelled ≡ t.cancelled) × IsPublished t id s t'
  unfolding commit_data
  commit_data-IsPublished id size accessed t s t' h = elim (Result-cases (load_data c t id)) [
    | inr (f, e) ↦ absurd (ground arith)
    | inl (d, e) ↦ elim (Bool-cases d.ready) [
      | inl ready ↦ elim (Result-cases (decode_snapshot d)) [
        | inr (f, g) ↦ absurd (ground arith)
        | inl (s0, g) ↦
            let same : t ≡ t' = ground arith in
            let it : s0 ≡ s = ground arith in
            (
              ap (λ (q : Transaction Raw). q.cancelled) (sym same),
              subst (IsPublished t id s) same (record {
                data' = d;
                stored = e;
                ready = ready;
                decodes = g ∙ ap ok it;
                elsewhere = λ j ne. refl;
              }),
            )
      ]
      | inr pending ↦
          elim (Result-cases
            (decode_snapshot (record d { size = size; last_accessed_at = accessed }))) [
              | inr (f, g) ↦ absurd (ground arith)
              | inl (s0, g) ↦
                  elim (Result-cases (
                    put_data c t id
                      (record d { size = size; last_accessed_at = accessed; ready = true }))) [
                        | inr (f, k) ↦ absurd (ground arith)
                        | inl (t1, k) ↦
                            let same : t1 ≡ t' = ground arith in
                            let it : s0 ≡ s = ground arith in
                            let fits = decode_ready d size accessed ∙ g in
                            let w =
                              put_data-IsWritten t id
                                (record d {
                                  size = size;
                                  last_accessed_at = accessed;
                                  ready = true;
                                })
                                s0 t' fits (k ∙ ap ok same) in
                            (
                              w.live,
                              record {
                                data' = record d {
                                  size = size;
                                  last_accessed_at = accessed;
                                  ready = true;
                                };
                                stored = w.here;
                                ready = refl;
                                decodes = fits ∙ ap ok it;
                                elsewhere = w.elsewhere;
                              },
                            )
                      ]
            ]
    ]
  ]

  err-not-ok : {A : Type 0} {f : Failure} {a : A} → err f ≢ ok a
  err-not-ok k = cc

  pub after-eq-ok :
      {A : Type 0} (m : Result (Unit {0})) (s s' : Store Raw) (rest : Result A × Store Raw) (a : A)
      → after m s rest ≡ (ok a, s')
      → rest ≡ (ok a, s')
  after-eq-ok (err e) s s' rest a h = absurd (err-not-ok (ap (λ q. q.0) h))
  after-eq-ok (ok u) s s' rest a h = h

  -- What a call that succeeds ran, and what it left.
  pub update-ran :
      {A : Type 0} (w : Weather) (store store' : Store Raw) (committed : Bool)
      (body : Transaction Raw → Result (A × Transaction Raw)) (a : A)
      → finished committed (update w body store) ≡ (ok a, store')
      → (t' : Transaction Raw) × (body (begin false store) ≡ ok (a, t'))
        × (t'.cancelled ≡ false → begin false store' ≡ t')
  update-ran w store store' committed body a h =
      let won = in_context-eq-ok committed (update w body store).0 (ap (λ q. q.0) h) in
      let (t', ran, there) = update-eq-ok w store body won in
      (
        t',
        ran,
        λ live.
            begin-live store' t' live
              (ap (λ (q : Store Raw). q.records) (sym (ap (λ q. q.1) h)) ∙ there),
      )

  -- A publication that succeeds, also one that was done before, leaves a ready record under the
  -- ID that decodes to the snapshot returned, and every other record loads as before.
  pub commit_snapshot-IsPublished :
      (w : Weather) (store store' : Store Raw) (id : Text) (size : ℤ) (accessed : ℕ) (s : Snapshot)
      → commit_snapshot c w store id size accessed ≡ (ok s, store')
      → IsPublished (begin false store) id s (begin false store')
  unfolding commit_snapshot
  commit_snapshot-IsPublished w store store' id size accessed s h =
      let ran =
        after-eq-ok (refuse_if (accessed == 0) bad_time) store store'
          (finished true (update w (commit_data c id size accessed) store)) s h in
      let (t', body, left) =
        update-ran w store store' true (commit_data c id size accessed) s ran in
      let (live, published) =
        commit_data-IsPublished id size accessed (begin false store) s t' body in
      subst (IsPublished (begin false store) id s) (sym (left live)) published
