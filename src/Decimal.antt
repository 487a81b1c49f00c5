-- ===== src/Decimal.antt =====
-- strconv.Itoa and strconv.Atoi at Go's 64-bit int, as formation.go uses them for process counts.
-- The loop that prints divides by ten; the number itself, plus one, is enough fuel for it.
pub mod RoundTrip
use flynn_controller.Prelude.{
  ℕ, zero, suc, ◌+◌, ◌-◌, ◌*◌, ◌/◌, ◌%◌, ◌^◌, Bool, true, false, Option, none, some, [], ◌∷◌, Text,
  ltb, leb, nat_eqb, ◌||◌, if◌then◌else◌, ℤ, pos, negsuc,
}

unfoldable pub digits : ℕ → ℕ → Text → Text
digits zero n out = out
digits (suc fuel) n out =
    let rest = digits fuel (n / 10) ((b'0' + n % 10) ∷ out) in
    if ltb n 10 then (b'0' + n) ∷ out else rest

-- strconv.Itoa
unfoldable pub itoa : ℤ → Text
unfolding digits
itoa (pos n) = digits (suc n) n []
itoa (negsuc n) = b'-' ∷ digits (suc (suc n)) (suc n) []

-- The loop of strconv.ParseUint: `none` is a syntax error, and a number that does not fit 64 bits
-- ends the loop at the largest one.
unfoldable pub scan : Text → ℕ → Option ℕ
scan [] n = some n
scan (c ∷ s) n =
    let m = n * 10 + (c - b'0') in
    let rest = scan s m in
    if ltb c b'0' || ltb b'9' c
    then none
    else if ltb (2 ^ 64 - 1) m
    then some (2 ^ 64 - 1)
    else rest

unfoldable pub parse_uint : Text → Option ℕ
unfolding scan
parse_uint [] = none
parse_uint (c ∷ s) = scan (c ∷ s) 0

abbrev at_most : ℕ → ℤ
at_most n = if leb (2 ^ 63) n then pos (2 ^ 63 - 1) else pos n

abbrev at_least : ℕ → ℤ
at_least zero = pos 0
at_least (suc n) = if ltb (2 ^ 63) (suc n) then negsuc (2 ^ 63 - 1) else negsuc n

-- what strconv.ParseInt makes of the digits behind the sign
abbrev read_most : Option ℕ → ℤ
read_most none = pos 0
read_most (some n) = at_most n

abbrev read_least : Option ℕ → ℤ
read_least none = pos 0
read_least (some n) = at_least n

-- The number that strconv.Atoi returns beside its error.
unfoldable pub atoi : Text → ℤ
unfolding parse_uint
atoi [] = pos 0
atoi (c ∷ s) =
    if nat_eqb c b'-'
    then read_least (parse_uint s)
    else if nat_eqb c b'+'
    then read_most (parse_uint s)
    else read_most (parse_uint (c ∷ s))
