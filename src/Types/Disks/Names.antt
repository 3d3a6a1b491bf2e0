-- ===== src/Types/Disks/Names.antt =====
-- The names that ResolveDataDisks gives are all different.
use kuma_box.Prelude.{
  ℕ, suc, ◌+◌, ◌≡◌, refl, sym, ap, subst, ◌∙◌, inl, inr, true, false, ◌||◌, some, List, [], ◌∷◌,
  ◌++◌, arith, length, is_empty, ltb, Bool-cases, Option-cases, Text, text_eq_iff,
}
use kuma_box.Errdefs.{Result, ok, err, ◌>>=◌, Result-cases}
use kuma_box.Types.Disks.{
  DataDiskSpec, take_inherited, take_named, named_disk, append_additions, after_names,
  resolve_data_disks, max_data_disks,
}
use kuma_box.Types.Disks.Fresh.{contains, candidate, fresh, fresh_sound}
use kuma_box.Types.Disks.Taken.{
  names_of, asked, Distinct, Within, take_inherited-IsTaken, take_named-IsTaken,
}

-- What the third loop appends: its names differ from each other and from those in use that it was
-- not asked for.
record IsAppended (used : List Text) (ds rest : List DataDiskSpec) : Type 0 where
  distinct : Distinct (names_of rest)
  new :
      (n : Text)
      → contains used n ≡ true
      → contains (asked ds) n ≡ false
      → contains (names_of rest) n ≡ false
  size : length rest ≡ length ds

append_additions-cons :
    (used : List Text) (index : ℕ) (d : DataDiskSpec) (ds rest : List DataDiskSpec)
    → append_additions used index (d ∷ ds) ≡ some (ok rest)
    → (d' : DataDiskSpec) × (used' : List Text) × (index' : ℕ) × (more : List DataDiskSpec)
      × (named_disk used index d ≡ some (d', used', index'))
      × (append_additions used' index' ds ≡ some (ok more))
      × (rest ≡ d' ∷ more)
unfolding append_additions
append_additions-cons used index d ds rest h = elim (Option-cases (named_disk used index d)) [
  | inl e ↦ absurd (ground arith)
  | inr ((d', used', index'), e) ↦ elim (Option-cases (append_additions used' index' ds)) [
    | inl g ↦ absurd (ground arith)
    | inr (r, g) ↦ elim (Result-cases r) [
      | inr (f, k) ↦ absurd (ground arith)
      | inl (more, k) ↦ (d', used', index', more, e, g ∙ ap some k, ground arith)
    ]
  ]
]

IsAppended-named :
    (used : List Text) (d : DataDiskSpec) (ds more : List DataDiskSpec)
    → is_empty d.name ≡ false
    → Within used (asked (d ∷ ds))
    → Distinct (asked (d ∷ ds))
    → IsAppended used ds more
    → IsAppended used (d ∷ ds) (d ∷ more)
unfolding contains
IsAppended-named used d ds more named within apart a = record {
  distinct = (
    a.new d.name (ground (arith, within d.name, text_eq_iff d.name d.name)) (ground arith),
    a.distinct,
  );
  new = λ n h free. ground (arith, a.new n, text_eq_iff d.name n);
  size = ground (arith, a.size);
}

IsAppended-fresh :
    (used : List Text) (d : DataDiskSpec) (name : Text) (ds more : List DataDiskSpec)
    → is_empty d.name ≡ true
    → contains used name ≡ false
    → Within used (asked (d ∷ ds))
    → IsAppended (name ∷ used) ds more
    → IsAppended used (d ∷ ds) (record d { name = name } ∷ more)
unfolding contains
IsAppended-fresh used d name ds more unnamed free within a = record {
  distinct = (
    a.new name (ground (arith, text_eq_iff name name)) (ground (arith, within name)),
    a.distinct,
  );
  new = λ n h apart. ground (arith, a.new n, text_eq_iff name n);
  size = ground (arith, a.size);
}

named_disk-named :
    (used used' : List Text) (index index' : ℕ) (d d' : DataDiskSpec)
    → is_empty d.name ≡ false
    → named_disk used index d ≡ some (d', used', index')
    → (d ≡ d') × (used ≡ used')
unfolding named_disk
named_disk-named used used' index index' d d' named h = (ground arith, ground arith)

named_disk-fresh :
    (used used' : List Text) (index index' : ℕ) (d d' : DataDiskSpec)
    → is_empty d.name ≡ true
    → named_disk used index d ≡ some (d', used', index')
    → (name : Text) × (contains used name ≡ false)
      × (record d { name = name } ≡ d')
      × (name ∷ used ≡ used')
unfolding named_disk
named_disk-fresh used used' index index' d d' unnamed h =
    elim (Option-cases (fresh (suc (length used)) used index)) [
      | inl e ↦ absurd (ground arith)
      | inr (k, e) ↦
          (candidate k, fresh_sound (suc (length used)) used index k e, ground arith, ground arith)
    ]

append_additions-IsAppended :
    (used : List Text) (index : ℕ) (ds rest : List DataDiskSpec)
    → Within used (asked ds)
    → Distinct (asked ds)
    → append_additions used index ds ≡ some (ok rest)
    → IsAppended used ds rest
unfolding append_additions contains
append_additions-IsAppended used index [] rest within apart h =
    let same : [] ≡ rest = ground arith in
    subst (IsAppended used []) same (record { distinct = tt; new = λ n k free. free; size = refl })
append_additions-IsAppended used index (d ∷ ds) rest within apart h =
    let (d', used', index', more, e, g, same) = append_additions-cons used index d ds rest h in
    elim (Bool-cases (is_empty d.name)) [
      | inl unnamed ↦
          let (name, free, here, now) = named_disk-fresh used used' index index' d d' unnamed e in
          let a =
            append_additions-IsAppended (name ∷ used) index' ds more
              (λ n k. ground (arith, within n)) (rw unnamed at apart)
              (subst (λ u. append_additions u index' ds ≡ some (ok more)) (sym now) g) in
          rw same (
            subst (λ z. IsAppended used (d ∷ ds) (z ∷ more)) here
              (IsAppended-fresh used d name ds more unnamed free within a))
      | inr named ↦
          let (here, now) = named_disk-named used used' index index' d d' named e in
          let a =
            append_additions-IsAppended used index' ds more (λ n k. ground (arith, within n))
              ((rw named at apart).1)
              (subst (λ u. append_additions u index' ds ≡ some (ok more)) (sym now) g) in
          rw same (
            subst (λ z. IsAppended used (d ∷ ds) (z ∷ more)) here
              (IsAppended-named used d ds more named within apart a))
    ]

names_of-append : (xs ys : List DataDiskSpec) → names_of (xs ++ ys) ≡ names_of xs ++ names_of ys
names_of-append [] ys = refl
names_of-append (x ∷ xs) ys = ap (λ ns. x.name ∷ ns) (names_of-append xs ys)

contains-append :
    (xs ys : List Text) (n : Text) → contains (xs ++ ys) n ≡ (contains xs n || contains ys n)
unfolding contains
contains-append [] ys n = refl
contains-append (x ∷ xs) ys n = ground (arith, contains-append xs ys n)

Distinct-append :
    (xs ys : List Text)
    → Distinct xs
    → Distinct ys
    → ((n : Text) → contains xs n ≡ true → contains ys n ≡ false)
    → Distinct (xs ++ ys)
unfolding contains
Distinct-append [] ys a b apart = b
Distinct-append (x ∷ xs) ys a b apart = (
  ground (arith, a.0, contains-append xs ys x, apart x, text_eq_iff x x),
  Distinct-append xs ys a.1 b (λ n h. apart n (ground arith)),
)

after_names-Distinct :
    (inherited additions ds : List DataDiskSpec) (names : Result (List Text))
    → names ≡ (do used ← take_inherited [] inherited; take_named used additions)
    → after_names inherited additions names ≡ some (ok ds)
    → Distinct (names_of ds)
      × (rest : List DataDiskSpec) × (ds ≡ inherited ++ rest)
      × (length rest ≡ length additions)
after_names-Distinct inherited additions ds (err e) from h = absurd (ground arith)
after_names-Distinct inherited additions ds (ok used) from h =
    elim (Result-cases (take_inherited [] inherited)) [
      | inr (f, e) ↦ absurd (ground arith)
      | inl (used0, e) ↦
          let t = take_inherited-IsTaken [] used0 inherited e in
          let u = take_named-IsTaken used0 used additions (ground arith) in
          elim (Option-cases (append_additions used 1 additions)) [
            | inl g ↦ absurd (ground arith)
            | inr (r, g) ↦ elim (Result-cases r) [
              | inr (f, k) ↦ absurd (ground arith)
              | inl (rest, k) ↦
                  let a =
                    append_additions-IsAppended used 1 additions rest u.added u.distinct
                      (g ∙ ap some k) in
                  let same : ds ≡ inherited ++ rest = ground arith in
                  (
                    rw (same, names_of-append inherited rest)
                        (Distinct-append (names_of inherited) (names_of rest) t.distinct a.distinct
                          (λ n i. a.new n (u.kept n (t.added n i)) (u.new n (t.added n i)))),
                    rest,
                    same,
                    a.size,
                  )
            ]
          ]
    ]

-- When the resolution of data disks succeeds, the names in its result are all different, and the
-- result is the inherited disks, in order, followed by one disk for each addition.
pub resolve_data_disks-Distinct :
    (inherited additions ds : List DataDiskSpec)
    → resolve_data_disks inherited additions ≡ some (ok ds)
    → Distinct (names_of ds)
      × (rest : List DataDiskSpec) × (ds ≡ inherited ++ rest)
      × (length rest ≡ length additions)
unfolding resolve_data_disks
resolve_data_disks-Distinct inherited additions ds h =
    elim (Bool-cases (ltb max_data_disks (length inherited + length additions))) [
      | inl many ↦ absurd (ground arith)
      | inr few ↦
          after_names-Distinct inherited additions ds
            (do used ← take_inherited [] inherited; take_named used additions) refl (rw few at h)
    ]
