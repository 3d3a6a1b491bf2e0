-- ===== src/Taps/Alias.antt =====
-- The alias that marks a pooled device, printed and parsed again after a restart.
use kuma_box.Prelude.{
  ℕ, zero, suc, ◌+◌, ◌/◌, ◌%◌, ◌<◌, ◌≤◌, ◌≡◌, refl, ap, ◌∙◌, Bool, true, false, not, ◌&&◌, ◌||◌,
  Option, none, some, List, [], ◌∷◌, ◌++◌, arith, ltb, leb, ◌==◌, if◌then◌else◌, any_of, Text, text,
  text_eq, text_eq_refl, ℤ, pos, negsuc,
}
use kuma_box.Types.Text.{decimal, decimal_onto}
use kuma_box.Types.Cpu.Ranges.{split, parse_digits}
use kuma_box.Types.Disks.Fresh.{parse_digits-decimal}
use kuma_box.Taps.{TapShape}

-- Provider.poolAlias.
unfoldable pub pool_alias : Text → TapShape → ℕ → Text
unfolding decimal
pool_alias owner shape epoch =
    text "kumabox"
    ++ (b':'
        ∷ (owner
            ++ (b':'
                ∷ (text "pool"
                    ++ (b':'
                        ∷ (decimal shape.slot
                            ++ (b':' ∷ (decimal shape.queues ++ (b':' ∷ decimal epoch)))))))))

abbrev below : ℕ → Option ℕ → Option ℕ
below limit none = none
below limit (some n) = if ltb n limit then some n else none

-- Digits, at least one, of a number below the limit.
unfoldable pub parse_below : ℕ → Text → Option ℕ
unfolding parse_digits
parse_below limit [] = none
parse_below limit (c ∷ s) = below limit (parse_digits 0 (c ∷ s))

abbrev positive : Option ℕ → Option ℤ
positive none = none
positive (some n) = some (pos n)

abbrev negative : Option ℕ → Option ℤ
negative none = none
negative (some zero) = some (pos 0)
negative (some (suc n)) = some (negsuc n)

-- strconv.Atoi, with 64-bit integers.
unfoldable pub atoi : Text → Option ℤ
unfolding parse_below
atoi [] = none
atoi (c ∷ s) =
    if c == b'-'
    then negative (parse_below 9223372036854775809 s)
    else if c == b'+'
    then positive (parse_below 9223372036854775808 s)
    else positive (parse_below 9223372036854775808 (c ∷ s))

-- Negative numbers are below both limits.
abbrev shape_of : Option ℤ → Option ℤ → Option ℕ → Option (TapShape × ℕ)
shape_of (some (pos slot)) (some (pos queues)) (some epoch) =
    if leb 64 slot || ltb queues 2 || not ((queues % 2) == 0)
    then none
    else some (record { slot = slot; queues = queues }, epoch)
shape_of _ _ _ = none

abbrev alias_of : Text → List Text → Option (TapShape × ℕ)
alias_of owner (kind ∷ name ∷ mark ∷ slot ∷ queues ∷ epoch ∷ []) =
    if text_eq kind (text "kumabox") && text_eq name owner && text_eq mark (text "pool")
    then shape_of (atoi slot) (atoi queues) (parse_below 18446744073709551616 epoch)
    else none
alias_of owner _ = none

-- Provider.parsePoolAlias.
unfoldable pub parse_pool_alias : Text → Text → Option (TapShape × ℕ)
unfolding split
parse_pool_alias owner alias = alias_of owner (split b':' alias)

abbrev has_colon : Text → Bool
has_colon s = any_of (λ c. c == b':') s

abbrev begins : Text → Bool
begins [] = false
begins (c ∷ s) = leb b'0' c && leb c b'9'

split-first : (a s : Text) → has_colon a ≡ false → split b':' (a ++ (b':' ∷ s)) ≡ a ∷ split b':' s
unfolding split any_of
split-first [] s h = refl
split-first (c ∷ a) s h = let rest = split-first a s (ground (arith, h)) in ground (arith, h, rest)

split-last : (a : Text) → has_colon a ≡ false → split b':' a ≡ a ∷ []
unfolding split any_of
split-last [] h = refl
split-last (c ∷ a) h = let rest = split-last a (ground (arith, h)) in ground (arith, h, rest)

has_colon-decimal_onto :
    (f n : ℕ) (acc : Text) → has_colon acc ≡ false → has_colon (decimal_onto f n acc) ≡ false
unfolding decimal_onto any_of
has_colon-decimal_onto zero n acc h = h
has_colon-decimal_onto (suc f) n acc h =
    let digit = (n % 10) + 48 in
    let more : has_colon (digit ∷ acc) ≡ false = ground (arith, h) in
    let rest = has_colon-decimal_onto f (n / 10) (digit ∷ acc) more in ground (arith, more, rest)

has_colon-decimal : (n : ℕ) → has_colon (decimal n) ≡ false
unfolding decimal any_of
has_colon-decimal n = has_colon-decimal_onto (suc n) n [] refl

no_colons : (has_colon (text "kumabox") ≡ false) × (has_colon (text "pool") ≡ false)
unfolding any_of
no_colons = (refl, refl)

marks :
    (text_eq (text "kumabox") (text "kumabox") ≡ true)
    × (text_eq (text "pool") (text "pool") ≡ true)
unfolding text_eq
marks = (refl, refl)

begins-decimal_onto :
    (f n : ℕ) (acc : Text) → begins acc ≡ true → begins (decimal_onto f n acc) ≡ true
unfolding decimal_onto
begins-decimal_onto zero n acc h = h
begins-decimal_onto (suc f) n acc h =
    let digit = (n % 10) + 48 in
    let more : begins (digit ∷ acc) ≡ true = ground arith in
    let rest = begins-decimal_onto f (n / 10) (digit ∷ acc) more in ground (arith, more, rest)

-- A printed number begins with a digit.
begins-decimal : (n : ℕ) → begins (decimal n) ≡ true
unfolding decimal decimal_onto
begins-decimal n =
    let digit = (n % 10) + 48 in
    let more : begins (digit ∷ []) ≡ true = ground arith in
    let rest = begins-decimal_onto n (n / 10) (digit ∷ []) more in ground (arith, more, rest)

parse_below-digits :
    (limit n : ℕ) (s : Text)
    → begins s ≡ true
    → parse_digits 0 s ≡ some n
    → n < limit
    → parse_below limit s ≡ some n
unfolding parse_below
parse_below-digits limit n [] b e h = absurd (ground (arith, b))
parse_below-digits limit n (c ∷ s) b e h = rw e (ground (arith, h))

atoi-digits :
    (n : ℕ) (s : Text)
    → begins s ≡ true
    → parse_digits 0 s ≡ some n
    → n < 9223372036854775808
    → atoi s ≡ some (pos n)
unfolding atoi
atoi-digits n [] b e h = absurd (ground (arith, b))
atoi-digits n (c ∷ s) b e h =
    let read = parse_below-digits 9223372036854775808 n (c ∷ s) b e h in
    let minus : (c == b'-') ≡ false = ground (arith, b) in
    let plus : (c == b'+') ≡ false = ground (arith, b) in rw (minus, plus, read) refl

split-pool_alias :
    (owner : Text) (shape : TapShape) (epoch : ℕ)
    → has_colon owner ≡ false
    → split b':' (pool_alias owner shape epoch)
      ≡ text "kumabox"
        ∷ owner
        ∷ text "pool"
        ∷ decimal shape.slot
        ∷ decimal shape.queues
        ∷ decimal epoch
        ∷ []
unfolding pool_alias
split-pool_alias owner shape epoch h =
    split-first (text "kumabox") _ no_colons.0
    ∙ ap (λ q. text "kumabox" ∷ q)
        (split-first owner _ h
          ∙ ap (λ q. owner ∷ q)
              (split-first (text "pool") _ no_colons.1
                ∙ ap (λ q. text "pool" ∷ q)
                    (split-first (decimal shape.slot) _ (has_colon-decimal shape.slot)
                      ∙ ap (λ q. decimal shape.slot ∷ q)
                          (split-first (decimal shape.queues) _ (has_colon-decimal shape.queues)
                            ∙ ap (λ q. decimal shape.queues ∷ q)
                                (split-last (decimal epoch) (has_colon-decimal epoch))))))

-- The alias of a pooled device, of a slot and an even number of queues in their ranges and an
-- epoch of 64 bits, parses back to its shape and epoch under the same owner, if the owner has no
-- colon.
pub parse_pool_alias-pool_alias :
    (owner : Text) (shape : TapShape) (epoch : ℕ)
    → has_colon owner ≡ false
    → shape.slot < 64
    → 2 ≤ shape.queues
    → shape.queues % 2 ≡ 0
    → shape.queues < 9223372036854775808
    → epoch < 18446744073709551616
    → parse_pool_alias owner (pool_alias owner shape epoch) ≡ some (shape, epoch)
unfolding parse_pool_alias
parse_pool_alias-pool_alias owner shape epoch h s q even small e =
    let slot =
      atoi-digits shape.slot (decimal shape.slot) (begins-decimal shape.slot)
        (parse_digits-decimal shape.slot) (omega (arith, s)) in
    let queues =
      atoi-digits shape.queues (decimal shape.queues) (begins-decimal shape.queues)
        (parse_digits-decimal shape.queues) small in
    let last =
      parse_below-digits 18446744073709551616 epoch (decimal epoch) (begins-decimal epoch)
        (parse_digits-decimal epoch) e in
    let fits : (leb 64 shape.slot || ltb shape.queues 2 || not ((shape.queues % 2) == 0)) ≡ false =
      ground (arith, s, q, even) in
    rw
      (
        split-pool_alias owner shape epoch h,
        text_eq_refl owner,
        marks.0,
        marks.1,
        slot,
        queues,
        last,
        fits,
      )
      refl
