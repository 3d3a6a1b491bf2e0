-- ===== src/Types/Cpu/Ranges/Covers.antt =====
-- CPUSetContains answers the set question on the ranges alone.
use kuma_box.Prelude.{
  ℕ, ◌+◌, ◌≤◌, ◌≡◌, ◌↔◌, refl, inl, inr, Bool, true, sym, ◌∙◌, List, [], ◌∷◌, arith, Text,
}
use kuma_box.Errdefs.{ok, Result-cases}
use kuma_box.Types.Cpu.Ranges.{
  CpuRange, skip_below, covers_first, covers, cpu_ranges, cpu_set_contains,
}
use kuma_box.Types.Cpu.Ranges.Members.{
  In, AnyIn, Normal, Listed, cpu_ranges-Normal, cpu_ranges_sound, cpu_ranges_complete,
}

Normal-mono : (lo hi : ℕ) (rs : List CpuRange) → lo ≤ hi → Normal hi rs → Normal lo rs
Normal-mono lo hi [] h s = tt
Normal-mono lo hi (r ∷ rs) h s = (omega arith, s.1, s.2)

AnyIn-above : (n lo : ℕ) (rs : List CpuRange) → Normal lo rs → AnyIn n rs → lo ≤ n
AnyIn-above n lo [] s h = elim h [ ]
AnyIn-above n lo (r ∷ rs) s h = ground (arith, AnyIn-above n (r.last + 2) rs s.2)

skip_below-Normal : (b lo : ℕ) (gs : List CpuRange) → Normal lo gs → Normal lo (skip_below b gs)
unfolding skip_below
skip_below-Normal b lo [] s = tt
skip_below-Normal b lo (g ∷ gs) s =
    ground (
      arith,
      Normal-mono lo (g.last + 2) (skip_below b gs),
      skip_below-Normal b (g.last + 2) gs s.2,
    )

skip_below_sound : (n b : ℕ) (gs : List CpuRange) → AnyIn n (skip_below b gs) → AnyIn n gs
unfolding skip_below
skip_below_sound n b [] h = h
skip_below_sound n b (g ∷ gs) h = ground (arith, skip_below_sound n b gs)

skip_below_complete :
    (n b : ℕ) (gs : List CpuRange) → b ≤ n → AnyIn n gs → AnyIn n (skip_below b gs)
unfolding skip_below
skip_below_complete n b [] h i = i
skip_below_complete n b (g ∷ gs) h i = ground (arith, skip_below_complete n b gs)

-- The first range that is left ends at `b` or later.
abbrev StartsAbove : ℕ → List CpuRange → Type 0
StartsAbove b [] = Unit
StartsAbove b (g ∷ gs) = b ≤ g.last

skip_below-StartsAbove : (b : ℕ) (gs : List CpuRange) → StartsAbove b (skip_below b gs)
unfolding skip_below
skip_below-StartsAbove b [] = tt
skip_below-StartsAbove b (g ∷ gs) = ground (arith, skip_below-StartsAbove b gs)

covers_first_sound :
    (n : ℕ) (w : CpuRange) (gs : List CpuRange) → covers_first w gs ≡ true → In n w → AnyIn n gs
covers_first_sound n w [] h i = cc
covers_first_sound n w (g ∷ gs) h i = ground arith

covers_first_complete :
    (lo : ℕ) (w : CpuRange) (gs : List CpuRange)
    → Normal lo gs
    → StartsAbove w.first gs
    → w.first ≤ w.last
    → ((n : ℕ) → In n w → AnyIn n gs)
    → covers_first w gs ≡ true
covers_first_complete lo w [] s a v all = absurd (all w.first (omega arith))
covers_first_complete lo w (g ∷ gs) s a v all = ground (
  arith,
  all w.first,
  all (g.last + 1),
  AnyIn-above w.first (g.last + 2) gs s.2,
  AnyIn-above (g.last + 1) (g.last + 2) gs s.2,
)

covers_sound : (n : ℕ) (gs ws : List CpuRange) → covers gs ws ≡ true → AnyIn n ws → AnyIn n gs
unfolding covers
covers_sound n gs [] h i = elim i [ ]
covers_sound n gs (w ∷ ws) h i = ground (
  arith,
  covers_first_sound n w (skip_below w.first gs),
  covers_sound n (skip_below w.first gs) ws,
  skip_below_sound n w.first gs,
)

covers_complete :
    (lo lo' : ℕ) (gs ws : List CpuRange)
    → Normal lo gs
    → Normal lo' ws
    → ((n : ℕ) → AnyIn n ws → AnyIn n gs)
    → covers gs ws ≡ true
unfolding covers
covers_complete lo lo' gs [] sg sw all = refl
covers_complete lo lo' gs (w ∷ ws) sg sw all =
    rw here (covers_complete lo (w.last + 2) left ws kept sw.2 rest)
  where
    left : List CpuRange
    left = skip_below w.first gs

    kept : Normal lo left
    kept = skip_below-Normal w.first lo gs sg

    here : covers_first w left ≡ true
    here =
        covers_first_complete lo w left kept (skip_below-StartsAbove w.first gs) sw.1
          (λ n i. skip_below_complete n w.first gs i.0 (all n (inl i)))

    rest : (n : ℕ) → AnyIn n ws → AnyIn n left
    rest n i =
        skip_below_complete n w.first gs (omega (arith, AnyIn-above n (w.last + 2) ws sw.2 i, sw.1))
          (all n (inr i))

-- When CPUSetContains answers, it answers yes exactly if every CPU that the requested list names
-- is named by the available list.
pub cpu_set_contains_iff :
    (available requested : Text) (b : Bool)
    → cpu_set_contains available requested ≡ ok b
    → (b ≡ true) ↔ ((n : ℕ) → Listed n requested → Listed n available)
unfolding cpu_set_contains
cpu_set_contains_iff available requested b h = elim (Result-cases (cpu_ranges available)) [
  | inl (gs, eg) ↦ elim (Result-cases (cpu_ranges requested)) [
    | inl (ws, ew) ↦
        let same : covers gs ws ≡ b = ground arith in
        (
          λ t n i.
              cpu_ranges_sound n available gs eg
                (covers_sound n gs ws (same ∙ t) (cpu_ranges_complete n requested ws ew i)),
          λ all.
              sym same
              ∙ covers_complete 0 0 gs ws (cpu_ranges-Normal available gs eg)
                  (cpu_ranges-Normal requested ws ew)
                  (λ n i.
                    cpu_ranges_complete n available gs eg
                      (all n (cpu_ranges_sound n requested ws ew i))),
        )
    | inr (f, e) ↦ ground arith
  ]
  | inr (f, e) ↦ ground arith
]
