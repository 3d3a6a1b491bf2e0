-- ===== src/Images/RoundTrip.antt =====
-- An image that was imported is read back as it was: the keys and the stored form of its layers.
pub mod Written
pub mod Read
pub mod Same
use kuma_box.Prelude.{
  ℕ, zero, suc, ◌-◌, ◌≡◌, ◌≢◌, inl, inr, refl, sym, ap, ◌∙◌, Bool, true, false, not, ◌||◌, Option,
  none, some, List, [], ◌∷◌, ◌++◌, All, arith, length, drop, Text, text_eq, text_eq_iff, pos,
  Bool-cases, ◌*◌, ◌+◌,
}
use kuma_box.Errdefs.{Result, ok, err, ◌>>=◌, ◌>>◌, refuse_if, or_else, >>=-eq-ok, or_else-eq-ok}
use kuma_box.Types.Ids.{Digest, IsDigest, digest_string, parse_digest, hex_encode, is_zero_digest}
use kuma_box.Types.Ids.RoundTrip.{parse_digest-digest_string}
use kuma_box.Types.Text.{decimal}
use kuma_box.Types.Cpu.Ranges.{parse_digits}
use kuma_box.Types.Disks.Fresh.{parse_digits-decimal}
use kuma_box.Images.{BootFile, Layer}
use kuma_box.Images.Selection.{is_boot_name}
use kuma_box.Images.Validate.{not_positive}
use kuma_box.Images.Records.{
  corrupt_image, zeros, eight_digits, layer_key, encode_boot_files, encode_layer, decode_boot_files,
  check_whiteouts, decode_layer,
}

parse_digits-zeros : (k : ℕ) (s : Text) → parse_digits 0 (zeros k ++ s) ≡ parse_digits 0 s
unfolding zeros parse_digits
parse_digits-zeros zero s = refl
parse_digits-zeros (suc k) s = parse_digits-zeros k s

eight_digits_inj : (i j : ℕ) → eight_digits i ≡ eight_digits j → i ≡ j
unfolding eight_digits
eight_digits_inj i j e =
    let same : some i ≡ some j =
      sym (parse_digits-decimal i)
      ∙ sym (parse_digits-zeros (8 - length (decimal i)) (decimal i))
      ∙ ap (parse_digits 0) e
      ∙ parse_digits-zeros (8 - length (decimal j)) (decimal j)
      ∙ parse_digits-decimal j in
    ground (arith, same)

append_inj : (a s t : Text) → a ++ s ≡ a ++ t → s ≡ t
append_inj [] s t e = e
append_inj (x ∷ a) s t e = append_inj a s t (ap (drop 1) e)

-- The layers of one manifest have different keys.
pub layer_key_apart :
    (m : Digest) (i j : ℕ) → i ≢ j → text_eq (layer_key m i) (layer_key m j) ≡ false
unfolding layer_key
layer_key_apart m i j apart = elim (Bool-cases (text_eq (layer_key m i) (layer_key m j))) [
  | inr other ↦ other
  | inl same ↦
      let keys = (text_eq_iff (layer_key m i) (layer_key m j)).0 same in
      absurd (
        apart (
          eight_digits_inj i j (
            ap (drop 1)
              (append_inj (digest_string m) (b'/' ∷ eight_digits i) (b'/' ∷ eight_digits j) keys))))
]

-- Go's digests have 32 bytes.
abbrev pub HasDigests : Layer → Type 0
HasDigests l =
    IsDigest l.source_digest
    × IsDigest l.erofs_digest
    × All (λ (f : BootFile). IsDigest f.digest) l.boot_files

decode_boot_files-same :
    (fs out : List BootFile)
    → All (λ (f : BootFile). IsDigest f.digest) fs
    → decode_boot_files (encode_boot_files fs) ≡ ok out
    → out ≡ fs
unfolding decode_boot_files encode_boot_files
decode_boot_files-same [] out all h = ground (arith, h)
decode_boot_files-same (f ∷ fs) out all h =
    let (d, e, h1) = >>=-eq-ok (or_else corrupt_image (parse_digest (digest_string f.digest))) h in
    let (u, k, h2) =
      >>=-eq-ok (refuse_if (not (is_boot_name f.name) || not_positive f.size) corrupt_image) h1 in
    let (rest, g, h3) = >>=-eq-ok (decode_boot_files (encode_boot_files fs)) h2 in
    let tail = decode_boot_files-same fs rest all.1 g in
    let one : d ≡ f.digest = ground (
      arith,
      or_else-eq-ok corrupt_image (parse_digest (digest_string f.digest)) e,
      parse_digest-digest_string f.digest all.0,
    ) in
    let made : (record { name = f.name; digest = d; size = f.size } ∷ rest) ≡ out =
      ground (arith, h3) in
    sym made ∙ (λ i. record { name = f.name; digest = one i; size = f.size } ∷ tail i)

-- A layer that decodes from its stored form is the layer that was stored, and has a size.
pub decode_layer-same :
    (m : Digest) (i : ℕ) (l out : Layer)
    → HasDigests l
    → decode_layer (encode_layer m (pos i) l) ≡ ok out
    → out ≡ l
unfolding decode_layer encode_layer
decode_layer-same m i l out all h =
    let (s, e, h1) =
      >>=-eq-ok (or_else corrupt_image (parse_digest (digest_string l.source_digest))) h in
    let (t, k, h2) =
      >>=-eq-ok (or_else corrupt_image (parse_digest (digest_string l.erofs_digest))) h1 in
    let (fs, g, h3) = >>=-eq-ok (decode_boot_files (encode_boot_files l.boot_files)) h2 in
    let (u, n, h4) =
      >>=-eq-ok
        (refuse_if (is_zero_digest s || is_zero_digest t || not_positive l.size) corrupt_image)
        h3 in
    let (v, o, h5) = >>=-eq-ok (check_whiteouts l.whiteouts) h4 in
    let source : s ≡ l.source_digest = ground (
      arith,
      or_else-eq-ok corrupt_image (parse_digest (digest_string l.source_digest)) e,
      parse_digest-digest_string l.source_digest all.0,
    ) in
    let erofs : t ≡ l.erofs_digest = ground (
      arith,
      or_else-eq-ok corrupt_image (parse_digest (digest_string l.erofs_digest)) k,
      parse_digest-digest_string l.erofs_digest all.1,
    ) in
    let files = decode_boot_files-same l.boot_files fs all.2 g in
    let made : record l { source_digest = s; erofs_digest = t; boot_files = fs } ≡ out =
      ground (arith, h5) in
    sym made
    ∙ (λ i. record l { source_digest = source i; erofs_digest = erofs i; boot_files = files i })
