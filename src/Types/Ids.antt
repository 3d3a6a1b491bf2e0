-- ===== src/Types/Ids.antt =====
-- internal/types/sandbox.go and image.go: sandbox identities and content digests, as byte strings.
pub mod RoundTrip
use kuma_box.Prelude.{
  ℕ, zero, suc, ◌+◌, ◌-◌, ◌*◌, ◌/◌, ◌%◌, ◌≡◌, refl, Bool, true, false, not, ◌&&◌, ◌||◌, List, [],
  ◌∷◌, ◌++◌, Option, none, some, arith, ltb, leb, ◌==◌, if◌then◌else◌, length, take, drop, all_of,
  any_of, Text, text, text_eq, has_prefix,
}
use kuma_box.Errdefs.{Result, ok, err, plain, ◌>>=◌, ◌>>◌, refuse_if}

-- A byte of a Go string; the callers test the length first.
abbrev byte_at : Text → ℕ → ℕ
byte_at [] i = 0
byte_at (c ∷ s) zero = c
byte_at (c ∷ s) (suc i) = byte_at s i

-- s[low:high].
abbrev slice : Text → ℕ → ℕ → Text
slice s low high = take (high - low) (drop low s)

abbrev is_upper_hex : ℕ → Bool
is_upper_hex c = leb b'A' c && leb c b'F'

-- encoding/hex: one digit of either case.
unfoldable pub hex_value : ℕ → Option ℕ
hex_value c =
    if leb b'0' c && leb c b'9'
    then some (c - 48)
    else if leb b'a' c && leb c b'f'
    then some (c - 87)
    else if leb b'A' c && leb c b'F'
    then some (c - 55)
    else none

abbrev join_digits : Option ℕ → Option ℕ → Option (List ℕ) → Option (List ℕ)
join_digits (some h) (some l) (some rest) = some ((h * 16 + l) ∷ rest)
join_digits _ _ _ = none

-- hex.DecodeString.
unfoldable pub hex_decode : Text → Option (List ℕ)
unfolding hex_value
hex_decode [] = some []
hex_decode (c ∷ []) = none
hex_decode (c ∷ d ∷ s) = join_digits (hex_value c) (hex_value d) (hex_decode s)

unfoldable pub hex_digit : ℕ → ℕ
hex_digit n = if ltb n 10 then n + 48 else n + 87

-- hex.EncodeToString.
unfoldable pub hex_encode : List ℕ → Text
unfolding hex_digit
hex_encode [] = []
hex_encode (b ∷ bs) = hex_digit (b / 16) ∷ hex_digit (b % 16) ∷ hex_encode bs

abbrev is_uuid_bytes : Option (List ℕ) → Bool
is_uuid_bytes none = false
is_uuid_bytes (some bytes) = length bytes == 16 && (byte_at bytes 8 / 64) == 2

-- The length, the dashes and the version digit of a UUIDv4.
unfoldable pub has_uuid_shape : Text → Bool
has_uuid_shape value =
    length value == 36
    && byte_at value 8 == b'-'
    && byte_at value 13 == b'-'
    && byte_at value 18 == b'-'
    && byte_at value 23 == b'-'
    && byte_at value 14 == b'4'

unfoldable pub compact_uuid : Text → Text
compact_uuid v =
    slice v 0 8 ++ (slice v 9 13 ++ (slice v 14 18 ++ (slice v 19 23 ++ slice v 24 36)))

-- ParseSandboxID returns its argument or an error.
unfoldable pub parse_sandbox_id : Text → Result Text
parse_sandbox_id value = do
  refuse_if (not (has_uuid_shape value)) plain
  refuse_if (not (is_uuid_bytes (hex_decode (compact_uuid value)))) plain
  refuse_if (any_of is_upper_hex value) plain
  ok value

-- What a sandbox reference parses to is that reference itself.
pub parse_sandbox_id_same : (value id : Text) → parse_sandbox_id value ≡ ok id → id ≡ value
unfolding parse_sandbox_id
parse_sandbox_id_same value id h = ground arith

-- Digest: the 32 bytes of its field `value`.
pub record Digest : Type 0 where
  pub value : List ℕ

unfoldable pub digest_string : Digest → Text
unfolding hex_encode
digest_string d = text "sha256:" ++ hex_encode d.value

abbrev to_lower_byte : ℕ → ℕ
to_lower_byte c = if leb b'A' c && leb c b'Z' then c + 32 else c

-- strings.ToLower changes nothing; on bytes above 127 the hexadecimal test refuses the text anyway.
unfoldable pub is_lower_text : Text → Bool
is_lower_text [] = true
is_lower_text (c ∷ s) = to_lower_byte c == c && is_lower_text s

abbrev digest_of : Option (List ℕ) → Result Digest
digest_of none = err plain
digest_of (some bytes) = if length bytes == 32 then ok (record { value = bytes }) else err plain

unfoldable pub has_digest_shape : Text → Bool
has_digest_shape value =
    has_prefix value (text "sha256:") && length value == 71 && is_lower_text value

unfoldable pub parse_digest : Text → Result Digest
parse_digest value = do
  refuse_if (not (has_digest_shape value)) plain
  digest_of (hex_decode (drop 7 value))

-- IsZero.
unfoldable pub is_zero_digest : Digest → Bool
unfolding all_of
is_zero_digest d = all_of (λ b. b == 0) d.value

-- == on digests.
abbrev pub digest_eq : Digest → Digest → Bool
digest_eq d e = text_eq d.value e.value

-- Go's type holds exactly 32 bytes.
pub record IsDigest (d : Digest) : Type 0 where
  pub size : length d.value ≡ 32
  pub bytes : all_of (λ b. ltb b 256) d.value ≡ true
