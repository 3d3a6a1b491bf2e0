-- ===== src/Images/RoundTrip/Read.antt =====
-- What the loop over the stored layers decodes: the layers that are there, in the order of their
-- positions.
use kuma_box.Prelude.{
  ℕ, suc, ◌<◌, ◌≤◌, ◌≡◌, inl, inr, refl, sym, ap, ◌∙◌, false, not, ◌||◌, List, [], ◌∷◌, ◌++◌, All,
  Has, arith, ℤ, pos, negsuc, lt_int, eq_int, eq_int_sound, amount, Bool-cases, subst,
}
use kuma_box.Errdefs.{ok, >>=-eq-ok, refuse_if-eq-ok, refuse_if, or_else}
use kuma_box.Types.Ids.{Digest, is_zero_digest, parse_digest}
use kuma_box.Images.{Layer}
use kuma_box.Images.Validate.{not_positive}
use kuma_box.Images.Validate.Sound.{layers_size}
use kuma_box.Images.Records.{
  LayerRecord, corrupt_image, encode_layer, decode_layer, decode_boot_files, check_whiteouts,
}
use kuma_box.Images.Access.{insert_position, sort_positions, layers_from}
use kuma_box.Images.RoundTrip.{HasDigests, decode_layer-same}
use kuma_box.Images.RoundTrip.Written.{AllFrom, map-AllFrom}

Has-insert_position :
    (q r : LayerRecord) (rs : List LayerRecord) → Has q (r ∷ rs) → Has q (insert_position r rs)
unfolding insert_position
Has-insert_position q r [] w = w
Has-insert_position q r (x ∷ xs) w = elim (Bool-cases (lt_int x.position r.position)) [
  | inl below ↦ rw below (elim w [
    | inl same ↦ inr (Has-insert_position q r xs (inl same))
    | inr later ↦ elim later [
      | inl same ↦ inl same
      | inr deeper ↦ inr (Has-insert_position q r xs (inr deeper))
    ]
  ])
  | inr here ↦ rw here w
]

pub Has-sort_positions :
    (q : LayerRecord) (rs : List LayerRecord) → Has q rs → Has q (sort_positions rs)
unfolding sort_positions
Has-sort_positions q [] w = w
Has-sort_positions q (r ∷ rs) w =
    Has-insert_position q r (sort_positions rs)
      (elim w [ inl same ↦ inl same | inr later ↦ inr (Has-sort_positions q rs later) ])

-- One round of the loop.
record Round (i : ℕ) (r : LayerRecord) (rs : List LayerRecord) (out : List Layer) : Type 0 where
  position : r.position ≡ pos i
  layer : Layer
  decoded : decode_layer r ≡ ok layer
  rest : List Layer
  later : layers_from (suc i) rs ≡ ok rest
  same : layer ∷ rest ≡ out

layers_from-Round :
    (i : ℕ) (r : LayerRecord) (rs : List LayerRecord) (out : List Layer)
    → layers_from i (r ∷ rs) ≡ ok out
    → Round i r rs out
unfolding layers_from
layers_from-Round i r rs out h =
    let wrong = not (eq_int r.position (pos i)) in
    let (u, e, h1) = >>=-eq-ok (refuse_if wrong corrupt_image) h in
    let (l, k, h2) = >>=-eq-ok (decode_layer r) h1 in
    let (rest, g, h3) = >>=-eq-ok (layers_from (suc i) rs) h2 in
    let right = refuse_if-eq-ok wrong corrupt_image e in
    record {
      position = eq_int_sound r.position (pos i) (ground (arith, right));
      layer = l;
      decoded = k;
      rest = rest;
      later = g;
      same = ground (arith, h3);
    }

layers_from-above :
    (i k : ℕ) (q : LayerRecord) (rs : List LayerRecord) (out : List Layer)
    → layers_from i rs ≡ ok out
    → Has q rs
    → q.position ≡ pos k
    → i ≤ k
layers_from-above i k q [] out h w e = absurd w
layers_from-above i k q (r ∷ rs) out h w e =
    let o = layers_from-Round i r rs out h in
    elim w [
      | inl same ↦
          let one : pos i ≡ pos k = sym o.position ∙ ap (λ p. p.position) same ∙ e in
          ground (arith, one)
      | inr later ↦ omega (arith, layers_from-above (suc i) k q rs o.rest o.later later e)
    ]

decode_layer-positive :
    (r : LayerRecord) (l : Layer) → decode_layer r ≡ ok l → not_positive l.size ≡ false
unfolding decode_layer
decode_layer-positive r l h =
    let (s, e, h1) = >>=-eq-ok (or_else corrupt_image (parse_digest r.source_digest)) h in
    let (t, k, h2) = >>=-eq-ok (or_else corrupt_image (parse_digest r.erofs_digest)) h1 in
    let (fs, g, h3) = >>=-eq-ok (decode_boot_files r.boot_files) h2 in
    let bad = is_zero_digest s || is_zero_digest t || not_positive r.size in
    let (u, n, h4) = >>=-eq-ok (refuse_if bad corrupt_image) h3 in
    let (v, o, h5) = >>=-eq-ok (check_whiteouts r.whiteouts) h4 in
    let fine : bad ≡ false = refuse_if-eq-ok bad corrupt_image n in
    let size : r.size ≡ l.size = ground (arith, h5) in
    ap not_positive (sym size) ∙ ground (arith, fine)

position_of : (m : Digest) (i : ℕ) (l : Layer) → (encode_layer m (pos i) l).position ≡ pos i
unfolding encode_layer
position_of m i l = refl

-- Where the records hold these layers from a position on, the loop decodes them first.
layers_from-prefix :
    (m : Digest) (i : ℕ) (rs : List LayerRecord) (out ls : List Layer)
    → layers_from i rs ≡ ok out
    → All HasDigests ls
    → AllFrom (λ j l. Has (encode_layer m (pos j) l) rs) i ls
    → (extra : List Layer) × (out ≡ ls ++ extra)
layers_from-prefix m i rs out [] h valid all = (out, refl)
layers_from-prefix m i [] out (l ∷ ls) h valid all = absurd all.0
layers_from-prefix m i (r ∷ rs) out (l ∷ ls) h valid all =
    let o = layers_from-Round i r rs out h in
    let first : r ≡ encode_layer m (pos i) l = elim all.0 [
      | inl same ↦ same
      | inr later ↦ absurd (
          omega (
            arith,
            layers_from-above (suc i) i (encode_layer m (pos i) l) rs o.rest o.later later
                (position_of m i l),
          ))
    ] in
    let own : o.layer ≡ l =
      decode_layer-same m i l o.layer valid.0 (ap decode_layer (sym first) ∙ o.decoded) in
    let (extra, same) = layers_from-prefix m (suc i) rs o.rest ls o.later valid.1 (
      map-AllFrom (suc i) ls
        (λ j x le w. elim w [
          | inl head ↦
              let one : pos i ≡ pos j =
                sym o.position ∙ ap (λ p. p.position) head ∙ position_of m j x in
              absurd (ground (arith, one, le))
          | inr later ↦ later
        ])
        all.1) in
    (extra, sym o.same ∙ (λ k. own k ∷ same k))

positive_sizes :
    (i : ℕ) (rs : List LayerRecord) (out : List Layer)
    → layers_from i rs ≡ ok out
    → All (λ (l : Layer). not_positive l.size ≡ false) out
unfolding layers_from
positive_sizes i [] out h =
    let nothing : [] ≡ out = ground (arith, h) in
    subst (All (λ (l : Layer). not_positive l.size ≡ false)) nothing tt
positive_sizes i (r ∷ rs) out h =
    let o = layers_from-Round i r rs out h in
    subst (All (λ (l : Layer). not_positive l.size ≡ false)) o.same
      (decode_layer-positive r o.layer o.decoded, positive_sizes (suc i) rs o.rest o.later)

amount_positive : (n : ℤ) → not_positive n ≡ false → 0 < amount n
amount_positive (pos n) h = ground (arith, h)
amount_positive (negsuc n) h = absurd (ground (arith, h))

no_extra :
    (ls extra : List Layer)
    → All (λ (l : Layer). not_positive l.size ≡ false) (ls ++ extra)
    → layers_size (ls ++ extra) ≡ layers_size ls
    → ls ++ extra ≡ ls
unfolding layers_size
no_extra [] [] all h = refl
no_extra [] (l ∷ extra) all h = absurd (omega (arith, h, amount_positive l.size all.0))
no_extra (l ∷ ls) extra all h = ap (λ q. l ∷ q) (no_extra ls extra all.1 (omega (arith, h)))

-- The decoded layers are those layers, if their sizes add up to the same.
pub layers_from-same :
    (m : Digest) (rs : List LayerRecord) (out ls : List Layer)
    → layers_from 0 rs ≡ ok out
    → All HasDigests ls
    → AllFrom (λ j l. Has (encode_layer m (pos j) l) rs) 0 ls
    → layers_size out ≡ layers_size ls
    → out ≡ ls
layers_from-same m rs out ls h valid all size =
    let (extra, same) = layers_from-prefix m 0 rs out ls h valid all in
    let positive =
      subst (All (λ (l : Layer). not_positive l.size ≡ false)) same (positive_sizes 0 rs out h) in
    same ∙ no_extra ls extra positive (sym (ap layers_size same) ∙ size)
