-- ===== src/Types/Disks/Taken.antt =====
-- The names that the first two loops of ResolveDataDisks take.
use kuma_box.Prelude.{
  ◌≡◌, refl, subst, inl, inr, true, false, List, [], ◌∷◌, arith, is_empty, Bool-cases, Text,
  text_eq_iff, if◌then◌else◌,
}
use kuma_box.Errdefs.{ok}
use kuma_box.Types.Disks.{DataDiskSpec, take_inherited, take_named}
use kuma_box.Types.Disks.Fresh.{contains}

abbrev pub names_of : List DataDiskSpec → List Text
names_of [] = []
names_of (d ∷ ds) = d.name ∷ names_of ds

-- The names that the additions ask for.
abbrev pub asked : List DataDiskSpec → List Text
asked [] = []
asked (d ∷ ds) = if is_empty d.name then asked ds else d.name ∷ asked ds

-- No name stands in the list twice.
abbrev pub Distinct : List Text → Type 0
Distinct [] = Unit
Distinct (n ∷ ns) = (contains ns n ≡ false) × Distinct ns

abbrev pub Within : List Text → List Text → Type 0
Within used ns = (n : Text) → contains ns n ≡ true → contains used n ≡ true

-- What names `ns` were taken, and what is in use afterwards.
pub record IsTaken (used ns used' : List Text) : Type 0 where
  pub distinct : Distinct ns
  pub new : (n : Text) → contains used n ≡ true → contains ns n ≡ false
  pub kept : (n : Text) → contains used n ≡ true → contains used' n ≡ true
  pub added : Within used' ns

nothing-IsTaken : (used : List Text) → IsTaken used [] used
unfolding contains
nothing-IsTaken used = record {
  distinct = tt;
  new = λ n h. refl;
  kept = λ n h. h;
  added = λ n h. absurd (ground arith);
}

one-IsTaken :
    (used ns used' : List Text) (n : Text)
    → contains used n ≡ false
    → IsTaken (n ∷ used) ns used'
    → IsTaken used (n ∷ ns) used'
unfolding contains
one-IsTaken used ns used' n free t = record {
  distinct = (t.new n (ground (arith, text_eq_iff n n)), t.distinct);
  new = λ m h. ground (arith, t.new m, text_eq_iff n m);
  kept = λ m h. t.kept m (ground arith);
  added = λ m h. ground (arith, t.kept m, t.added m, text_eq_iff n m);
}

pub take_inherited-IsTaken :
    (used used' : List Text) (ds : List DataDiskSpec)
    → take_inherited used ds ≡ ok used'
    → IsTaken used (names_of ds) used'
unfolding take_inherited
take_inherited-IsTaken used used' [] h =
    let same : used ≡ used' = ground arith in subst (IsTaken used []) same (nothing-IsTaken used)
take_inherited-IsTaken used used' (d ∷ ds) h =
    one-IsTaken used (names_of ds) used' d.name (ground arith)
      (take_inherited-IsTaken (d.name ∷ used) used' ds (ground arith))

pub take_named-IsTaken :
    (used used' : List Text) (ds : List DataDiskSpec)
    → take_named used ds ≡ ok used'
    → IsTaken used (asked ds) used'
unfolding take_named
take_named-IsTaken used used' [] h =
    let same : used ≡ used' = ground arith in subst (IsTaken used []) same (nothing-IsTaken used)
take_named-IsTaken used used' (d ∷ ds) h = elim (Bool-cases (is_empty d.name)) [
  | inl unnamed ↦ rw unnamed (take_named-IsTaken used used' ds (ground arith))
  | inr named ↦ rw named (
      one-IsTaken used (asked ds) used' d.name (ground arith)
        (take_named-IsTaken (d.name ∷ used) used' ds (ground arith)))
]
