-- ===== src/Types/Text.antt =====
-- The text formats of internal/types/sandbox.go: resource names, and decimal numbers as strconv.Itoa
-- and fmt's %d print them.
use kuma_box.Prelude.{
  ℕ, zero, suc, ◌+◌, ◌/◌, ◌%◌, Bool, false, ◌&&◌, ◌||◌, List, [], ◌∷◌, ltb, leb, ◌==◌,
  if◌then◌else◌, length, all_of, any_of, Text, ℤ, pos, negsuc,
}

is_digit : ℕ → Bool
is_digit c = leb b'0' c && leb c b'9'

is_lower : ℕ → Bool
is_lower c = leb b'a' c && leb c b'z'

is_upper : ℕ → Bool
is_upper c = leb b'A' c && leb c b'Z'

is_alnum : ℕ → Bool
unfolding is_digit is_lower is_upper
is_alnum c = is_digit c || is_lower c || is_upper c

is_name_byte : ℕ → Bool
unfolding is_alnum
is_name_byte c = is_alnum c || c == b'.' || c == b'_' || c == b'-'

-- A first byte of one class, then at most `n` bytes of another: ^[..][..]{0,n}$.
unfoldable pub first_then : (ℕ → Bool) → (ℕ → Bool) → ℕ → Text → Bool
unfolding all_of
first_then first rest n [] = false
first_then first rest n (c ∷ s) = first c && leb (length s) n && all_of rest s

-- validSandboxName and validNetworkName.
unfoldable pub is_resource_name : Text → Bool
unfolding is_name_byte first_then
is_resource_name = first_then is_alnum is_name_byte 62

is_disk_byte : ℕ → Bool
unfolding is_digit is_lower
is_disk_byte c = is_lower c || is_digit c || c == b'_' || c == b'-'

-- validDataDiskName.
unfoldable pub is_data_disk_name : Text → Bool
unfolding is_disk_byte first_then
is_data_disk_name = first_then is_lower is_disk_byte 19

is_reference_byte : ℕ → Bool
unfolding is_name_byte
is_reference_byte c = is_name_byte c || c == b':' || c == b'/'

-- validSnapshotName.
unfoldable pub is_snapshot_name : Text → Bool
unfolding is_reference_byte first_then
is_snapshot_name = first_then is_alnum is_reference_byte 62

-- The digits of `n`, in front of those in `acc`; a number has fewer digits than its value plus one.
unfoldable pub decimal_onto : ℕ → ℕ → Text → Text
decimal_onto zero n acc = acc
decimal_onto (suc f) n acc =
    let digit = (n % 10) + 48 in
    let rest = decimal_onto f (n / 10) (digit ∷ acc) in if ltb n 10 then digit ∷ acc else rest

unfoldable pub decimal : ℕ → Text
unfolding decimal_onto
decimal n = decimal_onto (suc n) n []

unfoldable pub itoa : ℤ → Text
unfolding decimal
itoa (pos n) = decimal n
itoa (negsuc n) = b'-' ∷ decimal (suc n)

-- filepath.IsAbs on Linux.
abbrev pub is_absolute : Text → Bool
is_absolute [] = false
is_absolute (c ∷ s) = c == b'/'

-- strings.ContainsAny(s, set), for a set of ASCII bytes.
unfoldable pub contains_any : List ℕ → Text → Bool
unfolding any_of
contains_any set s = any_of (λ c. any_of (λ d. c == d) set) s
