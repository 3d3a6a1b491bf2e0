-- ===== src/Taps/Free.antt =====
-- The free lists of the pool: one for each shape, the last device is taken first.
use kuma_box.Prelude.{
  ◌≡◌, refl, sym, ap, subst, ◌∙◌, inl, inr, Bool, false, ◌||◌, Option, none, some, List, [], ◌∷◌,
  ◌++◌, if◌then◌else◌, arith, Text, text_eq, text_eq_iff, Option-cases,
}
use kuma_box.Taps.{TapShape, shape_eq, free_list, set_free, take_last}

unfoldable pub has_name : Text → List Text → Bool
has_name name [] = false
has_name name (x ∷ xs) = text_eq x name || has_name name xs

abbrev pub IsOnce : List Text → Type 0
IsOnce [] = Unit
IsOnce (x ∷ xs) = (has_name x xs ≡ false) × IsOnce xs

pub free_list-set_free :
    (a b : TapShape) (names : List Text) (free : List (TapShape × List Text))
    → free_list b (set_free a names free) ≡ (if shape_eq a b then names else free_list b free)
unfolding free_list set_free
free_list-set_free a b names [] = refl
free_list-set_free a b names ((other, old) ∷ rest) =
    ground (arith, free_list-set_free a b names rest)

pub has_name-append :
    (l : List Text) (name other : Text)
    → has_name other (l ++ (name ∷ [])) ≡ (has_name other l || text_eq name other)
unfolding has_name
has_name-append [] name other = ground arith
has_name-append (x ∷ xs) name other = ground (arith, has_name-append xs name other)

pub IsOnce-append :
    (l : List Text) (name : Text) → has_name name l ≡ false → IsOnce l → IsOnce (l ++ (name ∷ []))
unfolding has_name
IsOnce-append [] name h o = (refl, tt)
IsOnce-append (x ∷ xs) name h o = (
  ground (arith, has_name-append xs name x, text_eq_iff x name, text_eq_iff name x, o.0),
  IsOnce-append xs name (ground arith) o.1,
)

take_last-none : (l : List Text) → take_last l ≡ none → l ≡ []
unfolding take_last
take_last-none [] h = refl
take_last-none (x ∷ xs) h = elim (Option-cases (take_last xs)) [
  | inl e ↦ absurd (ground arith)
  | inr (q, e) ↦ absurd (ground arith)
]

pub same_parts :
    (a b : Text) (l m : List Text)
    → ◌≡◌ {A = Option (Text × List Text)} (some (a, l)) (some (b, m))
    → (a ≡ b) × (l ≡ m)
same_parts a b l m h = (ground arith, ground arith)

pub take_last-append :
    (l left : List Text) (name : Text) → take_last l ≡ some (name, left) → l ≡ left ++ (name ∷ [])
unfolding take_last
take_last-append [] left name h = absurd (ground arith)
take_last-append (x ∷ xs) left name h = elim (Option-cases (take_last xs)) [
  | inl e ↦
      let (first, rest) = same_parts x name [] left (rw e at h) in
      rw (sym rest, sym first, take_last-none xs e) refl
  | inr ((y, ys), e) ↦
      let (last, rest) = same_parts y name (x ∷ ys) left (rw e at h) in
      rw (sym rest, sym last) (ap (λ l. x ∷ l) (take_last-append xs ys y e))
]

pub has_name-take_last :
    (l left : List Text) (name other : Text)
    → take_last l ≡ some (name, left)
    → has_name other l ≡ (has_name other left || text_eq name other)
has_name-take_last l left name other h =
    ap (has_name other) (take_last-append l left name h) ∙ has_name-append left name other

IsOnce-front :
    (l : List Text) (name : Text) → IsOnce (l ++ (name ∷ [])) → (has_name name l ≡ false) × IsOnce l
unfolding has_name
IsOnce-front [] name o = (refl, tt)
IsOnce-front (x ∷ xs) name o = (
  ground (
    arith,
    has_name-append xs name x,
    text_eq_iff x name,
    text_eq_iff name x,
    o.0,
    (IsOnce-front xs name o.1).0,
  ),
  (ground (arith, has_name-append xs name x, o.0), (IsOnce-front xs name o.1).1),
)

pub IsOnce-take_last :
    (l left : List Text) (name : Text)
    → take_last l ≡ some (name, left)
    → IsOnce l
    → (has_name name left ≡ false) × IsOnce left
IsOnce-take_last l left name h o =
    IsOnce-front left name (subst IsOnce (take_last-append l left name h) o)
