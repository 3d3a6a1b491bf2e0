-- ===== src/Types/Cpu/Ranges/Members.antt =====
-- What the ranges of a CPU list contain, and the order that cpuRanges gives them.
use kuma_box.Prelude.{ℕ, ◌+◌, ◌≤◌, ◌≡◌, ◌⊎◌, inl, inr, List, [], ◌∷◌, arith, max, Text}
use kuma_box.Errdefs.{Result, ok, err, Result-cases}
use kuma_box.Types.Cpu.Ranges.{
  CpuRange, insert_range, sort_ranges, merge_onto, merge, cpu_ranges, parse_range, parse_ranges,
  parse_uint32, cut, split,
}

-- CPU `n` lies in the range.
abbrev pub In : ℕ → CpuRange → Type 0
In n r = (r.first ≤ n) × (n ≤ r.last)

abbrev pub AnyIn : ℕ → List CpuRange → Type 0
AnyIn n [] = ⊥
AnyIn n (r ∷ rs) = In n r ⊎ AnyIn n rs

abbrev AllValid : List CpuRange → Type 0
AllValid [] = Unit
AllValid (r ∷ rs) = (r.first ≤ r.last) × AllValid rs

abbrev Sorted : ℕ → List CpuRange → Type 0
Sorted lo [] = Unit
Sorted lo (r ∷ rs) = (lo ≤ r.first) × (r.first ≤ r.last) × Sorted r.first rs

-- In order from `lo` on, each range with at least one CPU between it and the next.
abbrev pub Normal : ℕ → List CpuRange → Type 0
Normal lo [] = Unit
Normal lo (r ∷ rs) = (lo ≤ r.first) × (r.first ≤ r.last) × Normal (r.last + 2) rs

parse_range_valid : (part : Text) (r : CpuRange) → parse_range part ≡ ok r → r.first ≤ r.last
unfolding parse_range
parse_range_valid part r h = ground arith

parse_ranges-AllValid :
    (parts : List Text) (rs : List CpuRange) → parse_ranges parts ≡ ok rs → AllValid rs
unfolding parse_ranges
parse_ranges-AllValid [] [] h = tt
parse_ranges-AllValid [] (r ∷ rs) h = cc
parse_ranges-AllValid (part ∷ parts) rs h = elim (Result-cases (parse_range part)) [
  | inl (r, e) ↦ elim (Result-cases (parse_ranges parts)) [
    | inl (rest, e') ↦
        ground (arith, parse_range_valid part r e, parse_ranges-AllValid parts rest e')
    | inr (f, e') ↦ ground arith
  ]
  | inr (f, e) ↦ ground arith
]

insert_range-Sorted :
    (lo : ℕ) (r : CpuRange) (rs : List CpuRange)
    → lo ≤ r.first
    → r.first ≤ r.last
    → Sorted lo rs
    → Sorted lo (insert_range r rs)
unfolding insert_range
insert_range-Sorted lo r [] h v s = omega arith
insert_range-Sorted lo r (x ∷ rs) h v s = ground (arith, insert_range-Sorted x.first r rs)

sort_ranges-Sorted : (rs : List CpuRange) → AllValid rs → Sorted 0 (sort_ranges rs)
unfolding sort_ranges
sort_ranges-Sorted [] v = tt
sort_ranges-Sorted (r ∷ rs) v =
    insert_range-Sorted 0 r (sort_ranges rs) (omega arith) v.0 (sort_ranges-Sorted rs v.1)

module _ (n : ℕ) where
  insert_range_sound :
      (r : CpuRange) (rs : List CpuRange) → AnyIn n (insert_range r rs) → In n r ⊎ AnyIn n rs
  unfolding insert_range
  insert_range_sound r [] h = h
  insert_range_sound r (x ∷ rs) h = ground (arith, insert_range_sound r rs)

  insert_range_complete :
      (r : CpuRange) (rs : List CpuRange) → In n r ⊎ AnyIn n rs → AnyIn n (insert_range r rs)
  unfolding insert_range
  insert_range_complete r [] h = h
  insert_range_complete r (x ∷ rs) h = ground (arith, insert_range_complete r rs)

  sort_ranges_sound : (rs : List CpuRange) → AnyIn n (sort_ranges rs) → AnyIn n rs
  unfolding sort_ranges
  sort_ranges_sound [] h = h
  sort_ranges_sound (r ∷ rs) h =
      ground (arith, insert_range_sound r (sort_ranges rs), sort_ranges_sound rs)

  sort_ranges_complete : (rs : List CpuRange) → AnyIn n rs → AnyIn n (sort_ranges rs)
  unfolding sort_ranges
  sort_ranges_complete [] h = h
  sort_ranges_complete (r ∷ rs) h =
      ground (arith, insert_range_complete r (sort_ranges rs), sort_ranges_complete rs)

abbrev join : CpuRange → CpuRange → CpuRange
join r x = record { first = r.first; last = max r.last x.last }

Sorted-mono : (lo hi : ℕ) (rs : List CpuRange) → lo ≤ hi → Sorted hi rs → Sorted lo rs
Sorted-mono lo hi [] h s = tt
Sorted-mono lo hi (r ∷ rs) h s = (omega arith, s.1, s.2)

merge_onto-Normal :
    (lo : ℕ) (r : CpuRange) (rs : List CpuRange)
    → lo ≤ r.first
    → r.first ≤ r.last
    → Sorted r.first rs
    → Normal lo (merge_onto r rs)
unfolding merge_onto
merge_onto-Normal lo r [] h v s = omega arith
merge_onto-Normal lo r (x ∷ rs) h v s = ground (
  arith,
  Sorted-mono r.first x.first rs,
  merge_onto-Normal lo (join r x) rs,
  merge_onto-Normal (r.last + 2) x rs,
)

module _ (n : ℕ) where
  merge_onto_sound :
      (r : CpuRange) (rs : List CpuRange)
      → r.first ≤ r.last
      → Sorted r.first rs
      → AnyIn n (merge_onto r rs)
      → In n r ⊎ AnyIn n rs
  unfolding merge_onto
  merge_onto_sound r [] v s h = h
  merge_onto_sound r (x ∷ rs) v s h =
      ground (
        arith,
        Sorted-mono r.first x.first rs,
        merge_onto_sound (join r x) rs,
        merge_onto_sound x rs,
      )

  merge_onto_complete :
      (r : CpuRange) (rs : List CpuRange)
      → r.first ≤ r.last
      → Sorted r.first rs
      → In n r ⊎ AnyIn n rs
      → AnyIn n (merge_onto r rs)
  unfolding merge_onto
  merge_onto_complete r [] v s h = h
  merge_onto_complete r (x ∷ rs) v s h = ground (
    arith,
    Sorted-mono r.first x.first rs,
    merge_onto_complete (join r x) rs,
    merge_onto_complete x rs,
  )

abbrev PartIn : ℕ → Result CpuRange → Type 0
PartIn n (ok r) = In n r
PartIn n (err e) = ⊥

abbrev pub ListedIn : ℕ → List Text → Type 0
ListedIn n [] = ⊥
ListedIn n (part ∷ parts) = PartIn n (parse_range part) ⊎ ListedIn n parts

-- CPU `n` is in some part of the list as it is written.
pub Listed : ℕ → Text → Type 0
Listed n s = ListedIn n (split b',' s)

module _ (n : ℕ) where
  parse_ranges_sound :
      (parts : List Text) (rs : List CpuRange)
      → parse_ranges parts ≡ ok rs
      → AnyIn n rs
      → ListedIn n parts
  unfolding parse_ranges
  parse_ranges_sound [] rs h i = ground arith
  parse_ranges_sound (part ∷ parts) rs h i = elim (Result-cases (parse_ranges parts)) [
    | inl (rest, e) ↦ ground (arith, parse_ranges_sound parts rest e)
    | inr (f, e) ↦ ground arith
  ]

  parse_ranges_complete :
      (parts : List Text) (rs : List CpuRange)
      → parse_ranges parts ≡ ok rs
      → ListedIn n parts
      → AnyIn n rs
  unfolding parse_ranges
  parse_ranges_complete [] rs h i = elim i [ ]
  parse_ranges_complete (part ∷ parts) rs h i = elim (Result-cases (parse_ranges parts)) [
    | inl (rest, e) ↦ ground (arith, parse_ranges_complete parts rest e)
    | inr (f, e) ↦ ground arith
  ]

  merge_sound : (rs : List CpuRange) → Sorted 0 rs → AnyIn n (merge rs) → AnyIn n rs
  unfolding merge
  merge_sound [] s h = h
  merge_sound (r ∷ rs) s h = merge_onto_sound n r rs s.1 s.2 h

  merge_complete : (rs : List CpuRange) → Sorted 0 rs → AnyIn n rs → AnyIn n (merge rs)
  unfolding merge
  merge_complete [] s h = h
  merge_complete (r ∷ rs) s h = merge_onto_complete n r rs s.1 s.2 h

merge-Normal : (rs : List CpuRange) → Sorted 0 rs → Normal 0 (merge rs)
unfolding merge
merge-Normal [] s = tt
merge-Normal (r ∷ rs) s = merge_onto-Normal 0 r rs s.0 s.1 s.2

-- The intervals of an accepted CPU list are in order, not empty, and at least one CPU lies
-- between each and the next.
pub cpu_ranges-Normal : (s : Text) (rs : List CpuRange) → cpu_ranges s ≡ ok rs → Normal 0 rs
unfolding cpu_ranges
cpu_ranges-Normal [] rs h = ground arith
cpu_ranges-Normal (c ∷ s) rs h = elim (Result-cases (parse_ranges (split b',' (c ∷ s)))) [
  | inl (ps, e) ↦ ground (
    arith,
    merge-Normal (sort_ranges ps)
        (sort_ranges-Sorted ps (parse_ranges-AllValid (split b',' (c ∷ s)) ps e)),
  )
  | inr (f, e) ↦ ground arith
]

pub cpu_ranges_sound :
    (n : ℕ) (s : Text) (rs : List CpuRange) → cpu_ranges s ≡ ok rs → AnyIn n rs → Listed n s
unfolding cpu_ranges Listed
cpu_ranges_sound n [] rs h i = ground arith
cpu_ranges_sound n (c ∷ s) rs h i = elim (Result-cases (parse_ranges (split b',' (c ∷ s)))) [
  | inl (ps, e) ↦ ground (
    arith,
    parse_ranges_sound n (split b',' (c ∷ s)) ps e,
    sort_ranges_sound n ps,
    merge_sound n (sort_ranges ps)
        (sort_ranges-Sorted ps (parse_ranges-AllValid (split b',' (c ∷ s)) ps e)),
  )
  | inr (f, e) ↦ ground arith
]

not-Listed-nil : (n : ℕ) → Listed n [] → ⊥
unfolding Listed split parse_range parse_uint32 cut
not-Listed-nil n h = ground arith

pub cpu_ranges_complete :
    (n : ℕ) (s : Text) (rs : List CpuRange) → cpu_ranges s ≡ ok rs → Listed n s → AnyIn n rs
unfolding cpu_ranges
cpu_ranges_complete n [] rs h i = absurd (not-Listed-nil n i)
cpu_ranges_complete n (c ∷ s) rs h i = elim (Result-cases (parse_ranges (split b',' (c ∷ s)))) [
  | inl (ps, e) ↦ ground (
    arith,
    parse_ranges_complete n (split b',' (c ∷ s)) ps e (unfold Listed in i),
    sort_ranges_complete n ps,
    merge_complete n (sort_ranges ps)
        (sort_ranges-Sorted ps (parse_ranges-AllValid (split b',' (c ∷ s)) ps e)),
  )
  | inr (f, e) ↦ ground arith
]
