-- ===== src/Prelude/Dicts.antt =====
-- Go maps keyed by strings, as association lists with one entry for each key.
use mathlib.Core.Path.{◌≡◌, refl}
use mathlib.Core.Logic.{inl, inr}
use mathlib.Core.Option.{Option, none, some}
use mathlib.Core.List.{List, [], ◌∷◌}
use native.Mathlib.Omega.{arith}
use kuma_box.Prelude.Tests.{if◌then◌else◌, Bool-cases}
use kuma_box.Prelude.Bytes.{Text, text_eq, text_eq_iff}

abbrev pub Dict {ℓ} : Type ℓ → Type ℓ
Dict V = List (Text × V)

module _ {ℓ} {V : Type ℓ} where
  unfoldable pub lookup : Text → Dict V → Option V
  lookup k [] = none
  lookup k ((j, v) ∷ d) = if text_eq j k then some v else lookup k d

  unfoldable pub insert : Text → V → Dict V → Dict V
  insert k v [] = (k, v) ∷ []
  insert k v ((j, w) ∷ d) = if text_eq j k then (k, v) ∷ d else (j, w) ∷ insert k v d

  unfoldable pub without : Text → Dict V → Dict V
  without k [] = []
  without k ((j, w) ∷ d) = let rest = without k d in if text_eq j k then rest else (j, w) ∷ rest

  pub lookup-insert :
      (k j : Text) (v : V) (d : Dict V)
      → lookup j (insert k v d) ≡ (if text_eq k j then some v else lookup j d)
  unfolding lookup insert
  lookup-insert k j v [] = refl
  lookup-insert k j v ((i, w) ∷ d) =
      ground (arith, text_eq_iff k j, text_eq_iff i k, text_eq_iff i j, lookup-insert k j v d)

  pub lookup-without :
      (k j : Text) (d : Dict V)
      → lookup j (without k d) ≡ (if text_eq k j then none else lookup j d)
  unfolding lookup without
  lookup-without k j [] = ground arith
  lookup-without k j ((i, w) ∷ d) =
      ground (arith, lookup-without k j d, text_eq_iff i k, text_eq_iff i j, text_eq_iff k j)

-- One entry for each key.
abbrev pub Unique {ℓ} : {V : Type ℓ} → Dict V → Type ℓ
Unique [] = Unit
Unique ((id, a) ∷ p) = (lookup id p ≡ none) × Unique p

module _ {ℓ} {V : Type ℓ} where
  pub Unique-insert : (id : Text) (a : V) (p : Dict V) → Unique p → Unique (insert id a p)
  unfolding insert lookup
  Unique-insert id a [] u = (refl, tt)
  Unique-insert id a ((j, b) ∷ p) u = elim (Bool-cases (text_eq j id)) [
    | inl same ↦ rw same (rw ((text_eq_iff j id).0 same) at u.0, u.1)
    | inr other ↦ rw other (
      rw (lookup-insert id j a p) (ground (arith, text_eq_iff id j, text_eq_iff j id, u.0)),
      Unique-insert id a p u.1,
    )
  ]

  pub Unique-without : (id : Text) (p : Dict V) → Unique p → Unique (without id p)
  unfolding without lookup
  Unique-without id [] u = tt
  Unique-without id ((j, b) ∷ p) u = elim (Bool-cases (text_eq j id)) [
    | inl same ↦ rw same (Unique-without id p u.1)
    | inr other ↦ rw other (
      rw (lookup-without id j p) (ground (arith, text_eq_iff id j, text_eq_iff j id, u.0)),
      Unique-without id p u.1,
    )
  ]

pub ruleset dict_laws = (lookup-insert, lookup-without)
