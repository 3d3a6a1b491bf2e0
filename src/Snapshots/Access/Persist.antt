-- ===== src/Snapshots/Access/Persist.antt =====
-- What a committed batch leaves in the store: no record is lost, and no usage time of the batch.
use kuma_box.Prelude.{
  ℕ, ◌≤◌, ◌≡◌, ◌≢◌, refl, sym, ap, subst, ◌∙◌, inl, inr, true, false, not, ◌||◌, none, some, [],
  ◌∷◌, arith, ltb, Text, text_eq, text_eq_iff, if◌then◌else◌, Option-cases, Bool-cases, Dict,
}
use kuma_box.Errdefs.{Failure, ok, err, Result-cases}
use kuma_box.Types.Snapshot.{Snapshot, validate_snapshot}
use kuma_box.Metadata.{Transaction, get}
use kuma_box.Snapshots.Records.{SnapshotData, SnapshotCodecs, decode_snapshot, access_time}
use kuma_box.Snapshots.Operations.{snapshots, decode_data, load_data}
use kuma_box.Snapshots.Effects.{put_data-IsWritten}
use kuma_box.Snapshots.Access.{later, persist_record, persist_one, persist}

-- The same record, used no earlier than before.
pub record IsCarried (d d' : SnapshotData) : Type 0 where
  pub same : d' ≡ record d { last_accessed_at = d'.last_accessed_at }
  pub later : access_time d ≤ access_time d'

-- The latest usage time that a batch has for an ID.
abbrev pub latest_of : Dict ℕ → Text → ℕ
latest_of [] j = 0
latest_of ((id, accessed) ∷ batch) j =
    if text_eq id j then later accessed (latest_of batch j) else latest_of batch j

both : (a b m n : ℕ) → a ≤ m → m ≤ n → b ≤ n → later a b ≤ n
both a b m n h k l = ground arith

pub ready_kept : (d d' : SnapshotData) → IsCarried d d' → d.ready ≡ true → d'.ready ≡ true
ready_kept d d' c r = ap (λ (z : SnapshotData). z.ready) c.same ∙ r

pub deleting_kept :
    (d d' : SnapshotData) → IsCarried d d' → d.deleting ≡ false → d'.deleting ≡ false
deleting_kept d d' c n = ap (λ (z : SnapshotData). z.deleting) c.same ∙ n

pub IsCarried-refl : (d : SnapshotData) → IsCarried d d
IsCarried-refl d = record { same = refl; later = omega arith }

pub IsCarried-trans : (d e f : SnapshotData) → IsCarried d e → IsCarried e f → IsCarried d f
IsCarried-trans d e f p q = record {
  same =
      q.same ∙ ap (λ (z : SnapshotData). record z { last_accessed_at = f.last_accessed_at }) p.same;
  later = omega (arith, p.later, q.later);
}

-- A decoded record decodes under any access time.
decode_touched :
    (d : SnapshotData) (s : Snapshot) (a : ℕ)
    → decode_snapshot d ≡ ok s
    → (s' : Snapshot) × (decode_snapshot (record d { last_accessed_at = a }) ≡ ok s')
unfolding decode_snapshot validate_snapshot
decode_touched d s a h = elim (Result-cases (decode_snapshot (record d { last_accessed_at = a }))) [
  | inl (s', e) ↦ (s', e)
  | inr (f, e) ↦ absurd (ground arith)
]

module _ {Raw : Type 0} (c : SnapshotCodecs Raw) where
  -- What writing one usage time does.
  record IsPersisted (t : Transaction Raw) (id : Text) (accessed : ℕ) (t' : Transaction Raw)
      : Type 0 where
    live : t'.cancelled ≡ t.cancelled
    elsewhere : (j : Text) → text_eq id j ≡ false → load_data c t' j ≡ load_data c t j
    lost : (f : Failure) → load_data c t id ≡ err f → load_data c t' id ≡ err f
    here :
        (d : SnapshotData)
        → load_data c t id ≡ ok d
        → (d' : SnapshotData) × (load_data c t' id ≡ ok d')
          × IsCarried d d'
          × (d.ready ≡ true → d.deleting ≡ false → accessed ≤ access_time d')

  load_data-read :
      (t : Transaction Raw) (id : Text) (raw : Raw) (d : SnapshotData)
      → get t snapshots id ≡ ok (some raw)
      → decode_data c raw ≡ ok d
      → load_data c t id ≡ ok d
  unfolding load_data
  load_data-read t id raw d g e = rw (g, e)

  decode_data-decodes :
      (raw : Raw) (d : SnapshotData)
      → decode_data c raw ≡ ok d
      → (s : Snapshot) × (decode_snapshot d ≡ ok s)
  unfolding decode_data
  decode_data-decodes raw d h = elim (Option-cases (c.record_json.unmarshal raw)) [
    | inl e ↦ absurd (ground arith)
    | inr (d', e) ↦ elim (Result-cases (decode_snapshot d')) [
      | inl (s, g) ↦ (s, ground arith)
      | inr (f, g) ↦ absurd (ground arith)
    ]
  ]

  load_data-missing :
      (t : Transaction Raw) (id : Text) (d : SnapshotData)
      → get t snapshots id ≡ ok none
      → load_data c t id ≢ ok d
  unfolding load_data
  load_data-missing t id d e k = ground arith

  ok-not-err : {d : SnapshotData} {f : Failure} → ok d ≢ err f
  ok-not-err h = cc

  ok_same : {a b : SnapshotData} → ok a ≡ ok b → a ≡ b
  ok_same h = cc

  untouched :
      (t : Transaction Raw) (id : Text) (accessed : ℕ)
      → ((d : SnapshotData)
          → load_data c t id ≡ ok d
          → d.ready ≡ true
          → d.deleting ≡ false
          → accessed ≤ access_time d)
      → IsPersisted t id accessed t
  untouched t id accessed old = record {
    live = refl;
    elsewhere = λ j ne. refl;
    lost = λ f h. h;
    here = λ d h. (d, h, IsCarried-refl d, old d h);
  }

  persist_record-IsPersisted :
      (t : Transaction Raw) (id : Text) (accessed : ℕ) (raw : Raw) (d : SnapshotData)
      (t' : Transaction Raw)
      → get t snapshots id ≡ ok (some raw)
      → decode_data c raw ≡ ok d
      → persist_record c t id accessed d ≡ ok t'
      → IsPersisted t id accessed t'
  persist_record-IsPersisted t id accessed raw d t' g e h =
      elim (Bool-cases (not d.ready || d.deleting || not (ltb (access_time d) accessed))) [
        | inl skipped ↦
            let stays : t ≡ t' = ground arith in
            subst (IsPersisted t id accessed) stays (
              untouched t id accessed (λ q k r n.
                let same : d ≡ q = ok_same (sym (load_data-read t id raw d g e) ∙ k) in
                subst (λ z. accessed ≤ access_time z) same
                  (newer (subst (λ (z : SnapshotData). z.ready ≡ true) (sym same) r)
                    (subst (λ (z : SnapshotData). z.deleting ≡ false) (sym same) n) skipped)))
        | inr written ↦
            let (s, fits) = decode_data-decodes raw d e in
            let (s', fits') = decode_touched d s accessed fits in
            let w =
              put_data-IsWritten c t id (record d { last_accessed_at = accessed }) s' t' fits'
                (rw written at h) in
            record {
              live = w.live;
              elsewhere = w.elsewhere;
              lost = λ f k. absurd (ok-not-err (sym (load_data-read t id raw d g e) ∙ k));
              here = λ q k.
                  let same : d ≡ q = ok_same (sym (load_data-read t id raw d g e) ∙ k) in
                  (
                    record d { last_accessed_at = accessed },
                    w.here,
                    subst (λ z. IsCarried z (record d { last_accessed_at = accessed })) same
                        (record { same = refl; later = ground (arith, written) }),
                    λ r n. ground (arith, written),
                  );
            }
      ]
    where
      newer :
          d.ready ≡ true
          → d.deleting ≡ false
          → (not d.ready || d.deleting || not (ltb (access_time d) accessed)) ≡ true
          → accessed ≤ access_time d
      newer r n k = ground arith

  persist_one-IsPersisted :
      (t : Transaction Raw) (id : Text) (accessed : ℕ) (t' : Transaction Raw)
      → persist_one c t id accessed ≡ ok t'
      → IsPersisted t id accessed t'
  unfolding persist_one
  persist_one-IsPersisted t id accessed t' h = elim (Result-cases (get t snapshots id)) [
    | inr (f, e) ↦ absurd (ground arith)
    | inl (raw, e) ↦ elim (Option-cases raw) [
      | inl gone ↦
          let stays : t ≡ t' = ground arith in
          subst (IsPersisted t id accessed) stays (
            untouched t id accessed
              (λ d k r n. absurd (load_data-missing t id d (e ∙ ap ok gone) k)))
      | inr (stored, g) ↦ elim (Result-cases (decode_data c stored)) [
        | inr (f, k) ↦ absurd (ground arith)
        | inl (d, k) ↦
            persist_record-IsPersisted t id accessed stored d t' (e ∙ ap ok g) k (ground arith)
      ]
    ]
  ]

  -- What a batch does to every record.
  pub record IsFlushed (t : Transaction Raw) (batch : Dict ℕ) (t' : Transaction Raw) : Type 0 where
    pub live : t'.cancelled ≡ t.cancelled
    pub lost : (j : Text) (f : Failure) → load_data c t j ≡ err f → load_data c t' j ≡ err f
    pub each :
        (j : Text) (d : SnapshotData)
        → load_data c t j ≡ ok d
        → (d' : SnapshotData) × (load_data c t' j ≡ ok d')
          × IsCarried d d'
          × (d.ready ≡ true → d.deleting ≡ false → latest_of batch j ≤ access_time d')

  IsFlushed-after :
      (t u t' : Transaction Raw) (id : Text) (accessed : ℕ) (batch : Dict ℕ)
      → IsPersisted t id accessed u
      → IsFlushed u batch t'
      → IsFlushed t ((id, accessed) ∷ batch) t'
  IsFlushed-after t u t' id accessed batch p q = record {
    live = q.live ∙ p.live;
    lost = λ j f h. elim (Bool-cases (text_eq id j)) [
      | inl same ↦
          let here : id ≡ j = (text_eq_iff id j).0 same in
          q.lost j f (ap (load_data c u) (sym here) ∙ p.lost f (ap (load_data c t) here ∙ h))
      | inr other ↦ q.lost j f (p.elsewhere j other ∙ h)
    ];
    each = λ j d h. elim (Bool-cases (text_eq id j)) [
      | inl same ↦
          let here : id ≡ j = (text_eq_iff id j).0 same in
          let (d1, k1, c1, a1) = p.here d (ap (load_data c t) here ∙ h) in
          let (d2, k2, c2, a2) = q.each j d1 (ap (load_data c u) (sym here) ∙ k1) in
          (
            d2,
            k2,
            IsCarried-trans d d1 d2 c1 c2,
            λ r n. rw same (
                both accessed (latest_of batch j) (access_time d1) (access_time d2) (a1 r n)
                  c2.later (a2 (ready_kept d d1 c1 r) (deleting_kept d d1 c1 n))),
          )
      | inr other ↦
          let (d2, k2, c2, a2) = q.each j d (p.elsewhere j other ∙ h) in
          (d2, k2, c2, λ r n. rw other (a2 r n))
    ];
  }

  -- A batch that was written lost no record, and no usage time of a ready record.
  pub persist-IsFlushed :
      (batch : Dict ℕ) (t t' : Transaction Raw)
      → persist c batch t ≡ ok (tt, t')
      → IsFlushed t batch t'
  unfolding persist
  persist-IsFlushed [] t t' h =
      let stays : t ≡ t' = ground arith in
      subst (IsFlushed t []) stays (record {
        live = refl;
        lost = λ j f k. k;
        each = λ j d k. (d, k, IsCarried-refl d, λ r n. omega arith);
      })
  persist-IsFlushed ((id, accessed) ∷ batch) t t' h =
      elim (Result-cases (persist_one c t id accessed)) [
        | inr (f, e) ↦ absurd (ground arith)
        | inl (u, e) ↦
            IsFlushed-after t u t' id accessed batch (persist_one-IsPersisted t id accessed u e)
              (persist-IsFlushed batch u t' (ground arith))
      ]
