-- ===== src/Types/Disks/Fresh.antt =====
-- The naming loop of ResolveDataDisks, and why it ends.
use kuma_box.Prelude.{
  ℕ, zero, suc, ◌+◌, ◌/◌, ◌%◌, ◌≤◌, ◌<◌, ◌≡◌, ◌≢◌, refl, sym, ap, ◌∙◌, inl, inr, Bool, true, false,
  ◌||◌, Option, none, some, List, [], ◌∷◌, ◌++◌, arith, if◌then◌else◌, length, drop, Text, text,
  text_eq, text_eq_iff, Bool-cases,
}
use kuma_box.Types.Text.{decimal, decimal_onto}
use kuma_box.Types.Cpu.Ranges.{parse_digits}

-- used[name].
unfoldable pub contains : List Text → Text → Bool
contains [] name = false
contains (u ∷ us) name = text_eq u name || contains us name

-- fmt.Sprintf("data%d", index).
unfoldable pub candidate : ℕ → Text
unfolding decimal
candidate i = text "data" ++ decimal i

-- The loop that skips the candidates in use.
unfoldable pub fresh : ℕ → List Text → ℕ → Option ℕ
unfolding contains
fresh zero used i = none
fresh (suc f) used i = elim (contains used (candidate i)) [
  | true ↦ fresh f used (suc i)
  | false ↦ some i
]

parse_digits-decimal_onto :
    (f n : ℕ) (acc : Text) → n < f → parse_digits 0 (decimal_onto f n acc) ≡ parse_digits n acc
unfolding parse_digits decimal_onto
parse_digits-decimal_onto zero n acc h = absurd (omega arith)
parse_digits-decimal_onto (suc f) n acc h =
    ground (arith, parse_digits-decimal_onto f (n / 10) (((n % 10) + 48) ∷ acc))

-- A printed number reads back as that number.
pub parse_digits-decimal : (n : ℕ) → parse_digits 0 (decimal n) ≡ some n
unfolding decimal parse_digits
parse_digits-decimal n = parse_digits-decimal_onto (suc n) n [] (omega arith)

decimal_inj : (i j : ℕ) → decimal i ≡ decimal j → i ≡ j
decimal_inj i j e =
    ground (arith, parse_digits-decimal i, parse_digits-decimal j, ap (parse_digits 0) e)

candidate_inj : (i j : ℕ) → candidate i ≡ candidate j → i ≡ j
unfolding candidate
candidate_inj i j e = decimal_inj i j (ap (drop 4) e)

-- The names without `name`.
abbrev others : Text → List Text → List Text
others name [] = []
others name (u ∷ us) = if text_eq u name then others name us else u ∷ others name us

length-others-le : (name : Text) (us : List Text) → length (others name us) ≤ length us
length-others-le name [] = omega arith
length-others-le name (u ∷ us) = ground (arith, length-others-le name us)

length-others-lt :
    (name : Text) (us : List Text) → contains us name ≡ true → length (others name us) < length us
unfolding contains
length-others-lt name [] h = cc
length-others-lt name (u ∷ us) h =
    ground (arith, length-others-le name us, length-others-lt name us)

contains-others :
    (name other : Text) (us : List Text)
    → name ≢ other
    → contains (others name us) other ≡ contains us other
unfolding contains
contains-others name other [] h = refl
contains-others name other (u ∷ us) h =
    ground (arith, contains-others name other us, text_eq_iff u name, text_eq_iff u other)

-- Names that are no later candidate do not matter.
fresh-others :
    (f : ℕ) (us : List Text) (i j : ℕ) → i < j → fresh f (others (candidate i) us) j ≡ fresh f us j
unfolding fresh
fresh-others zero us i j h = refl
fresh-others (suc f) us i j h = ground (
  arith,
  contains-others (candidate i) (candidate j) us (λ e. absurd (omega (arith, candidate_inj i j e))),
  fresh-others f us i (suc j),
)

-- With more rounds than names in use, the loop finds a name.
pub fresh_total :
    (f : ℕ) (us : List Text) (i : ℕ) → length us < f → (k : ℕ) × (fresh f us i ≡ some k)
unfolding fresh
fresh_total zero us i h = absurd (omega arith)
fresh_total (suc f) us i h = elim (Bool-cases (contains us (candidate i))) [
  | inl used ↦
      let (k, e) =
        fresh_total f (others (candidate i) us) (suc i)
          (omega (arith, length-others-lt (candidate i) us used)) in
      (k, rw (used, fresh) (sym (fresh-others f us i (suc i) (omega arith)) ∙ e))
  | inr free ↦ (i, rw (free, fresh))
]

pub fresh_sound :
    (f : ℕ) (us : List Text) (i k : ℕ) → fresh f us i ≡ some k → contains us (candidate k) ≡ false
unfolding fresh
fresh_sound zero us i k h = cc
fresh_sound (suc f) us i k h = ground (arith, fresh_sound f us (suc i) k)
