-- ===== src/Types/Ids/RoundTrip.antt =====
-- Hexadecimal text and digests, there and back.
use kuma_box.Prelude.{
  ℕ, ◌*◌, ◌/◌, ◌%◌, ◌<◌, ◌≡◌, refl, Bool, true, List, [], ◌∷◌, some, arith, ltb, ◌==◌, has_prefix,
  length, all_of, Text, drop, inl, inr, Option-cases,
}
use kuma_box.Errdefs.{ok}
use kuma_box.Types.Ids.{
  Digest, IsDigest, hex_value, hex_digit, hex_encode, hex_decode, digest_string, parse_digest,
  has_digest_shape, is_lower_text, to_lower_byte,
}

hex_value-hex_digit : (n : ℕ) → n < 16 → hex_value (hex_digit n) ≡ some n
unfolding hex_value hex_digit
hex_value-hex_digit n h = ground arith

abbrev bytes_ok : List ℕ → Bool
bytes_ok = all_of (λ b. ltb b 256)

hex_decode-hex_encode : (bs : List ℕ) → bytes_ok bs ≡ true → hex_decode (hex_encode bs) ≡ some bs
unfolding hex_decode hex_encode all_of
hex_decode-hex_encode [] h = refl
hex_decode-hex_encode (b ∷ bs) h =
    ground
      (arith, hex_value-hex_digit (b / 16), hex_value-hex_digit (b % 16), hex_decode-hex_encode bs)

length-hex_encode : (bs : List ℕ) → length (hex_encode bs) ≡ 2 * length bs
unfolding hex_encode
length-hex_encode [] = omega arith
length-hex_encode (b ∷ bs) = omega (arith, length-hex_encode bs)

is_lower-hex_digit : (n : ℕ) → n < 16 → (to_lower_byte (hex_digit n) == hex_digit n) ≡ true
unfolding hex_digit
is_lower-hex_digit n h = ground arith

is_lower_text-hex_encode : (bs : List ℕ) → bytes_ok bs ≡ true → is_lower_text (hex_encode bs) ≡ true
unfolding hex_encode is_lower_text all_of
is_lower_text-hex_encode [] h = refl
is_lower_text-hex_encode (b ∷ bs) h =
    ground
      (arith, is_lower-hex_digit (b / 16), is_lower-hex_digit (b % 16), is_lower_text-hex_encode bs)

has_digest_shape-digest_string :
    (d : Digest) → IsDigest d → has_digest_shape (digest_string d) ≡ true
unfolding has_digest_shape digest_string has_prefix is_lower_text
has_digest_shape-digest_string d v =
    rw (is_lower_text-hex_encode d.value v.bytes)
      (ground (arith, length-hex_encode d.value, v.size))

-- The text of a 32-byte digest parses back to that digest.
pub parse_digest-digest_string : (d : Digest) → IsDigest d → parse_digest (digest_string d) ≡ ok d
unfolding parse_digest
parse_digest-digest_string d v =
    rw (has_digest_shape-digest_string d v)
      (unfold digest_string in rw (hex_decode-hex_encode d.value v.bytes) (ground (arith, v.size)))

hex_value_small : (c n : ℕ) → hex_value c ≡ some n → n < 16
unfolding hex_value
hex_value_small c n h = ground arith

hex_decode-bytes_ok : (s : Text) (bs : List ℕ) → hex_decode s ≡ some bs → bytes_ok bs ≡ true
unfolding hex_decode all_of
hex_decode-bytes_ok [] bs h = ground arith
hex_decode-bytes_ok (c ∷ []) bs h = cc
hex_decode-bytes_ok (c ∷ d ∷ s) bs h = elim (Option-cases (hex_value c)) [
  | inl e ↦ ground arith
  | inr (m, e) ↦ elim (Option-cases (hex_value d)) [
    | inl f ↦ ground arith
    | inr (n, f) ↦ elim (Option-cases (hex_decode s)) [
      | inl g ↦ ground arith
      | inr (rest, g) ↦
          ground (arith, hex_value_small c m e, hex_value_small d n f, hex_decode-bytes_ok s rest g)
    ]
  ]
]

-- A parsed digest has 32 bytes.
pub parse_digest-IsDigest : (s : Text) (d : Digest) → parse_digest s ≡ ok d → IsDigest d
unfolding parse_digest
parse_digest-IsDigest s d h = elim (Option-cases (hex_decode (drop 7 s))) [
  | inl e ↦ absurd (ground arith)
  | inr (bs, e) ↦
      let bytes = hex_decode-bytes_ok (drop 7 s) bs e in
      record { size = ground arith; bytes = ground (arith, bytes) }
]
