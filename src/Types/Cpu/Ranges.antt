-- ===== src/Types/Cpu/Ranges.antt =====
-- cpuRanges and CPUSetContains: CPU lists such as 0-3,6 as ranges, never as single CPUs.
pub mod Members
pub mod Covers
use kuma_box.Prelude.{
  ℕ, zero, suc, ◌+◌, ◌-◌, ◌*◌, Bool, true, false, not, ◌&&◌, ◌||◌, Option, none, some, List, [],
  ◌∷◌, ◌++◌, ltb, leb, ◌==◌, if◌then◌else◌, max, Text,
}
use kuma_box.Errdefs.{Result, ok, err, plain, ◌>>=◌}

pub record CpuRange : Type 0 where
  pub first : ℕ
  pub last : ℕ

-- strings.SplitSeq(value, ","), for a text whose part so far is `part`, reversed.
abbrev push_part : ℕ → List Text → List Text
push_part c [] = (c ∷ []) ∷ []
push_part c (p ∷ ps) = (c ∷ p) ∷ ps

unfoldable pub split : ℕ → Text → List Text
split sep [] = [] ∷ []
split sep (c ∷ s) = let rest = split sep s in if c == sep then [] ∷ rest else push_part c rest

-- strings.Cut(part, "-").
unfoldable pub cut : ℕ → Text → Text × Option Text
cut sep [] = ([], none)
cut sep (c ∷ s) = let (lo, hi) = cut sep s in if c == sep then ([], some s) else (c ∷ lo, hi)

abbrev is_digit : ℕ → Bool
is_digit c = leb b'0' c && leb c b'9'

unfoldable pub parse_digits : ℕ → Text → Option ℕ
parse_digits acc [] = some acc
parse_digits acc (c ∷ s) =
    let rest = parse_digits (acc * 10 + (c - 48)) s in if is_digit c then rest else none

-- strconv.ParseUint(s, 10, 32).
unfoldable pub parse_uint32 : Text → Option ℕ
unfolding parse_digits
parse_uint32 [] = none
parse_uint32 (c ∷ s) = elim (parse_digits 0 (c ∷ s)) [
  | none ↦ none
  | some n ↦ if ltb n 4294967296 then some n else none
]

abbrev range_of : Option ℕ → Option (Option ℕ) → Result CpuRange
range_of none hi = err plain
range_of (some first) none = ok (record { first = first; last = first })
range_of (some first) (some none) = err plain
range_of (some first) (some (some last)) =
    if ltb last first then err plain else ok (record { first = first; last = last })

abbrev map_option {ℓ κ} : {A : Type ℓ} {B : Type κ} → (A → B) → Option A → Option B
map_option f none = none
map_option f (some a) = some (f a)

unfoldable pub parse_range : Text → Result CpuRange
unfolding parse_uint32 cut
parse_range part =
    let (lo, hi) = cut b'-' part in range_of (parse_uint32 lo) (map_option parse_uint32 hi)

unfoldable pub parse_ranges : List Text → Result (List CpuRange)
parse_ranges [] = ok []
parse_ranges (part ∷ parts) = do r ← parse_range part; rest ← parse_ranges parts; ok (r ∷ rest)

-- slices.SortFunc by `first`; equal starts merge, so their order does not matter.
unfoldable pub insert_range : CpuRange → List CpuRange → List CpuRange
insert_range r [] = r ∷ []
insert_range r (s ∷ rs) = if leb r.first s.first then r ∷ s ∷ rs else s ∷ insert_range r rs

unfoldable pub sort_ranges : List CpuRange → List CpuRange
unfolding insert_range
sort_ranges [] = []
sort_ranges (r ∷ rs) = insert_range r (sort_ranges rs)

-- The merge loop; `current` is the last range of `merged`, which the next one may extend.
unfoldable pub merge_onto : CpuRange → List CpuRange → List CpuRange
merge_onto current [] = current ∷ []
merge_onto current (next ∷ rs) =
    let joined =
      merge_onto (record { first = current.first; last = max current.last next.last }) rs in
    let apart = current ∷ merge_onto next rs in
    if leb next.first (current.last + 1) then joined else apart

unfoldable pub merge : List CpuRange → List CpuRange
unfolding merge_onto
merge [] = []
merge (r ∷ rs) = merge_onto r rs

unfoldable pub cpu_ranges : Text → Result (List CpuRange)
unfolding split parse_ranges sort_ranges merge
cpu_ranges [] = ok []
cpu_ranges (c ∷ s) = do ranges ← parse_ranges (split b',' (c ∷ s)); ok (merge (sort_ranges ranges))

-- `for index < len(granted) && granted[index].last < interval.first { index++ }`.
unfoldable pub skip_below : ℕ → List CpuRange → List CpuRange
skip_below bound [] = []
skip_below bound (g ∷ gs) =
    let rest = skip_below bound gs in if ltb g.last bound then rest else g ∷ gs

abbrev covers_first : CpuRange → List CpuRange → Bool
covers_first r [] = false
covers_first r (g ∷ gs) = leb g.first r.first && leb r.last g.last

-- The loop over the wanted ranges; the list is what `index` leaves of the granted ones.
unfoldable pub covers : List CpuRange → List CpuRange → Bool
unfolding skip_below
covers granted [] = true
covers granted (r ∷ rs) =
    let left = skip_below r.first granted in
    let rest = covers left rs in if covers_first r left then rest else false

-- CPUSetContains.
unfoldable pub cpu_set_contains : Text → Text → Result Bool
unfolding cpu_ranges covers
cpu_set_contains available requested = do
  granted ← cpu_ranges available
  wanted ← cpu_ranges requested
  ok (covers granted wanted)
