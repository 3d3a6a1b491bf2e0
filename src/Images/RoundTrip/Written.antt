-- ===== src/Images/RoundTrip/Written.antt =====
-- Every layer that an import writes is stored under its own key.
use kuma_box.Prelude.{
  ℕ, suc, ◌<◌, ◌≤◌, ◌≡◌, refl, sym, ap, ◌∙◌, some, List, [], ◌∷◌, arith, text_eq_refl, pos,
}
use kuma_box.Errdefs.{ok, >>=-eq-ok}
use kuma_box.Types.Ids.{Digest}
use kuma_box.Metadata.{Transaction, get}
use kuma_box.Images.{Layer}
use kuma_box.Images.Records.{ImageCodecs, layer_key, encode_layer}
use kuma_box.Images.Access.{image_layers, decode_record}
use kuma_box.Images.Operations.{put_json, put_layers}
use kuma_box.Images.Writes.{put_json-IsWritten}
use kuma_box.Images.RoundTrip.{layer_key_apart}

-- The property holds at each element and its position, the first one's given.
abbrev pub AllFrom {ℓ} : {A : Type ℓ} → (ℕ → A → Type 0) → ℕ → List A → Type 0
AllFrom P i [] = Unit
AllFrom P i (x ∷ xs) = P i x × AllFrom P (suc i) xs

pub map-AllFrom {ℓ} :
    {A : Type ℓ} {P Q : ℕ → A → Type 0} (i : ℕ) (xs : List A)
    → ((j : ℕ) (x : A) → i ≤ j → P j x → Q j x)
    → AllFrom P i xs
    → AllFrom Q i xs
map-AllFrom i [] f all = tt
map-AllFrom i (x ∷ xs) f all = (
  f i x (omega arith) all.0,
  map-AllFrom (suc i) xs (λ j y le p. f j y (omega (arith, le)) p) all.1,
)

module _ {Raw : Type 0} (c : ImageCodecs Raw) where
  abbrev pub IsAt : Transaction Raw → Digest → ℕ → Layer → Type 0
  IsAt t m i l =
      (raw : Raw) × (get t image_layers (layer_key m i) ≡ ok (some raw))
      × (decode_record c raw ≡ ok (encode_layer m (pos i) l))

  put_layers-before :
      (m : Digest) (i j : ℕ) (ls : List Layer) (t t' : Transaction Raw)
      → j < i
      → put_layers c m i ls t ≡ ok t'
      → get t' image_layers (layer_key m j) ≡ get t image_layers (layer_key m j)
  unfolding put_layers
  put_layers-before m i j [] t t' lt h =
      let same : t ≡ t' = ground (arith, h) in
      ap (λ q. get q image_layers (layer_key m j)) (sym same)
  put_layers-before m i j (l ∷ ls) t t' lt h =
      let (next, e, rest) =
        >>=-eq-ok (put_json c.layer_json t image_layers (layer_key m i) (encode_layer m (pos i) l))
          h in
      let w =
        put_json-IsWritten c.layer_json t image_layers (layer_key m i) (encode_layer m (pos i) l)
          next e in
      let other = layer_key_apart m i j (λ same. absurd (omega (arith, lt, same))) in
      put_layers-before m (suc i) j ls next t' (omega (arith, lt)) rest
      ∙ rw (w.gets image_layers (layer_key m j), text_eq_refl image_layers, other) refl

  pub put_layers-IsAt :
      (m : Digest) (i : ℕ) (ls : List Layer) (t t' : Transaction Raw)
      → put_layers c m i ls t ≡ ok t'
      → AllFrom (IsAt t' m) i ls
  unfolding put_layers
  put_layers-IsAt m i [] t t' h = tt
  put_layers-IsAt m i (l ∷ ls) t t' h =
      let (next, e, rest) =
        >>=-eq-ok (put_json c.layer_json t image_layers (layer_key m i) (encode_layer m (pos i) l))
          h in
      let w =
        put_json-IsWritten c.layer_json t image_layers (layer_key m i) (encode_layer m (pos i) l)
          next e in
      let here : get next image_layers (layer_key m i) ≡ ok (some w.raw) =
        rw
          (
            w.gets image_layers (layer_key m i),
            text_eq_refl image_layers,
            text_eq_refl (layer_key m i),
          )
          refl in
      (
        (
          w.raw,
          put_layers-before m (suc i) i ls next t' (omega arith) rest ∙ here,
          rw w.reads refl,
        ),
        put_layers-IsAt m (suc i) ls next t' rest,
      )
