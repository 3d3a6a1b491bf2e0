-- ===== src/Metadata/Newest.antt =====
-- How the catalogs order a listing: the newest first, then by ID.
use kuma_box.Prelude.{Has, inl, inr, ℕ, List, [], ◌∷◌, Text, text_compare}
use Prim.Native.Nat.{Ordering, compare}

module _ {A : Type 0} (created : A → ℕ) (id : A → Text) where
  abbrev newest_order : A → A → Ordering
  newest_order a b = elim (compare (created b) (created a)) [
    | Ordering.lt ↦ Ordering.lt
    | Ordering.gt ↦ Ordering.gt
    | Ordering.eq ↦ text_compare (id a) (id b)
  ]

  unfoldable pub insert_newest : A → List A → List A
  insert_newest r [] = r ∷ []
  insert_newest r (x ∷ xs) = elim (newest_order r x) [
    | Ordering.gt ↦ x ∷ insert_newest r xs
    | _ ↦ r ∷ x ∷ xs
  ]

  unfoldable pub sort_newest : List A → List A
  unfolding insert_newest
  sort_newest [] = []
  sort_newest (r ∷ rs) = insert_newest r (sort_newest rs)

  Has-insert_newest : (a r : A) (rs : List A) → Has a (r ∷ rs) → Has a (insert_newest r rs)
  unfolding insert_newest
  Has-insert_newest a r [] w = w
  Has-insert_newest a r (x ∷ xs) w =
      elim (newest_order r x)
        as (λ o. Has a (elim o [ Ordering.gt ↦ x ∷ insert_newest r xs | _ ↦ r ∷ x ∷ xs ])) [
          | Ordering.gt ↦ elim w [
            | inl same ↦ inr (Has-insert_newest a r xs (inl same))
            | inr later ↦ elim later [
              | inl same ↦ inl same
              | inr deeper ↦ inr (Has-insert_newest a r xs (inr deeper))
            ]
          ]
          | Ordering.lt ↦ w
          | Ordering.eq ↦ w
        ]

  pub Has-sort_newest : (a : A) (rs : List A) → Has a rs → Has a (sort_newest rs)
  unfolding sort_newest
  Has-sort_newest a [] w = w
  Has-sort_newest a (r ∷ rs) w =
      Has-insert_newest a r (sort_newest rs)
        (elim w [ inl same ↦ inl same | inr later ↦ inr (Has-sort_newest a rs later) ])
