-- ===== src/Metadata/Laws.antt =====
-- What a transaction's writes do to its reads, and what an update leaves behind.
use kuma_box.Prelude.{
  Bool, false, sym, ap, ◌∙◌, Option-cases, Dict, ◌≡◌, inl, inr, none, some, arith, if◌then◌else◌,
  Text, text_eq, text_eq_iff, lookup, insert, without, lookup-insert, lookup-without,
}
use kuma_box.Errdefs.{Failure, Result, ok, err, Result-cases}
use kuma_box.Metadata.{
  Transaction, Store, Weather, collection, get, put, delete, snapshot, begin, view, update,
}

module _ {Raw : Type 0} where
  -- After a put that succeeds, a read finds the value at that key of that collection and what it
  -- found before everywhere else.
  pub get-put :
      (t t' : Transaction Raw) (c d key other : Text) (value : Raw)
      → put t c key value ≡ ok t'
      → get t' d other ≡ (
          if text_eq c d
          then (if text_eq key other then ok (some value) else get t d other)
          else get t d other)
  unfolding get put collection
  get-put t t' c d key other value h = elim (Option-cases (lookup c t.records)) [
    | inl gone ↦ ground arith
    | inr (entries, e) ↦ ground (
      arith,
      lookup-insert c d (insert key value entries) t.records,
      lookup-insert key other value entries,
      text_eq_iff c d,
    )
  ]

  pub put-cancelled :
      (t t' : Transaction Raw) (c key : Text) (value : Raw)
      → put t c key value ≡ ok t'
      → t'.cancelled ≡ t.cancelled
  unfolding put collection
  put-cancelled t t' c key value h = elim (Option-cases (lookup c t.records)) [
    | inl gone ↦ ground arith
    | inr (entries, e) ↦ ground arith
  ]

  pub delete-cancelled :
      (t t' : Transaction Raw) (c key : Text) → delete t c key ≡ ok t' → t'.cancelled ≡ t.cancelled
  unfolding delete collection
  delete-cancelled t t' c key h = elim (Option-cases (lookup c t.records)) [
    | inl gone ↦ ground arith
    | inr (entries, e) ↦ ground arith
  ]

  pub get-delete :
      (t t' : Transaction Raw) (c d key other : Text)
      → delete t c key ≡ ok t'
      → get t' d other ≡ (
          if text_eq c d
          then (if text_eq key other then ok none else get t d other)
          else get t d other)
  unfolding get delete collection
  get-delete t t' c d key other h = elim (Option-cases (lookup c t.records)) [
    | inl gone ↦ ground arith
    | inr (entries, e) ↦ ground (
      arith,
      lookup-insert c d (without key entries) t.records,
      lookup-without key other entries,
      text_eq_iff c d,
    )
  ]

  abbrev transaction : Bool → Dict (Dict Raw) → Transaction Raw
  transaction cancelled records = record { cancelled = cancelled; records = records }

  -- A transaction on a store that an update left reads what the update's callback made.
  pub begin-live :
      (s' : Store Raw) (t : Transaction Raw)
      → t.cancelled ≡ false
      → s'.records ≡ t.records
      → begin false s' ≡ t
  begin-live s' t live h = ap (transaction false) h ∙ ap (λ b. transaction b t.records) (sym live)

  module _ {ℓ} {A : Type ℓ} (w : Weather) (s : Store Raw) where
    -- A successful update leaves the records that its callback made.
    pub update-eq-ok :
        (body : Transaction Raw → Result (A × Transaction Raw)) {a : A}
        → (update w body s).0 ≡ ok a
        → (t : Transaction Raw) × (body (begin false s) ≡ ok (a, t))
          × ((update w body s).1.records ≡ t.records)
    unfolding update snapshot
    update-eq-ok body {a} h = elim (Result-cases (body (begin false s))) [
      | inl ((b, t), e) ↦ (t, ground arith, ground arith)
      | inr (f, e) ↦ absurd (ground arith)
    ]

    -- An update that fails changes no record.
    pub update-eq-err :
        (body : Transaction Raw → Result (A × Transaction Raw)) {f : Failure}
        → (update w body s).0 ≡ err f
        → (update w body s).1.records ≡ s.records
    unfolding update snapshot
    update-eq-err body h = elim (Result-cases (body (begin false s))) [
      | inl ((b, t), e) ↦ ground arith
      | inr (f, e) ↦ ground arith
    ]

    pub view-eq-ok :
        (read : Transaction Raw → Result A) {a : A}
        → view w read s ≡ ok a
        → read (begin false s) ≡ ok a
    unfolding view snapshot
    view-eq-ok read h = elim (Result-cases (read (begin false s))) [
      | inl (b, e) ↦ ground arith
      | inr (f, e) ↦ ground arith
    ]
