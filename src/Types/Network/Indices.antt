-- ===== src/Types/Network/Indices.antt =====
-- The interfaces of an accepted setup are numbered from zero, in order.
use kuma_box.Prelude.{
  ℕ, suc, ◌≡◌, refl, Bool, true, false, List, [], ◌∷◌, arith, map, ℤ, pos, negsuc, eq_int_sound,
}
use kuma_box.Errdefs.{ok}
use kuma_box.Types.Network.{
  Parsers, NetworkInterface, NetworkSetup, validate_interfaces, validate_setup,
}

-- i, i + 1, ..., one for each element.
abbrev pub count_from {ℓ} : {A : Type ℓ} → ℕ → List A → List ℤ
count_from i [] = []
count_from i (x ∷ xs) = pos i ∷ count_from (suc i) xs

abbrev indices : List NetworkInterface → List ℤ
indices = map (λ c. c.index)

validate_interfaces-indices :
    (p : Parsers) (e : Bool) (seen : List ℤ) (previous : ℤ) (i : ℕ) (cs : List NetworkInterface)
    → validate_interfaces p e seen previous i cs ≡ ok tt
    → indices cs ≡ count_from i cs
unfolding validate_interfaces
validate_interfaces-indices p e seen previous i [] h = refl
validate_interfaces-indices p e seen previous i (c ∷ cs) h = ground (
  arith,
  eq_int_sound c.index (pos i),
  validate_interfaces-indices p e (c.index ∷ seen) c.index (suc i) cs,
)

-- An accepted network setup numbers its interfaces 0, 1, 2 and so on, in order.
pub validate_setup-indices :
    (p : Parsers) (s : NetworkSetup)
    → validate_setup p s ≡ ok tt
    → map (λ c. c.index) s.interfaces ≡ count_from 0 s.interfaces
unfolding validate_setup
validate_setup-indices p s h = ground (
  arith,
  validate_interfaces-indices p true [] (negsuc 0) 0 s.interfaces,
  validate_interfaces-indices p false [] (negsuc 0) 0 s.interfaces,
)
