-- ===== src/Decimal/RoundTrip.antt =====
-- Printed numbers read back.
use flynn_controller.Prelude.{
  ℕ, zero, suc, ◌+◌, ◌/◌, ◌%◌, ◌^◌, ◌<◌, ◌≤◌, ◌≡◌, ◌∙◌, ap, sym, arith, Option, none, some, Bool,
  true, false, if◌then◌else◌, [], ◌∷◌, Text, ltb, nat_eqb, Bool-cases, inl, inr, ℤ, pos, negsuc,
}
use flynn_controller.Decimal.{
  at_most, at_least, read_most, read_least, digits, itoa, scan, parse_uint, atoi,
}

-- The number fits Go's int.
abbrev pub IsInt : ℤ → Type 0
IsInt (pos n) = n < 2 ^ 63
IsInt (negsuc n) = n < 2 ^ 63

scan-digits :
    (fuel n : ℕ) (out : Text) → n < fuel → n < 2 ^ 64 → scan (digits fuel n out) 0 ≡ scan out n
unfolding scan digits
scan-digits zero n out enough fits = absurd (omega arith)
scan-digits (suc fuel) n out enough fits = elim (Bool-cases (ltb n 10)) [
  | inl small ↦ ground arith
  | inr big ↦ ground (arith, scan-digits fuel (n / 10) ((b'0' + n % 10) ∷ out))
]

digits_head :
    (fuel n : ℕ) (out : Text)
    → n < fuel
    → (c : ℕ) × (s : Text) × (digits fuel n out ≡ c ∷ s) × (b'0' ≤ c)
unfolding digits
digits_head zero n out enough = absurd (omega arith)
digits_head (suc fuel) n out enough = elim (Bool-cases (ltb n 10)) [
  | inl small ↦ (b'0' + n, out, ground arith, omega arith)
  | inr big ↦
      let (c, s, e, le) = digits_head fuel (n / 10) ((b'0' + n % 10) ∷ out) (ground arith) in
      (c, s, ground arith, le)
]

parse_uint-digits : (n : ℕ) → n < 2 ^ 64 → parse_uint (digits (suc n) n []) ≡ some n
unfolding parse_uint scan
parse_uint-digits n fits =
    let (c, s, e, le) = digits_head (suc n) n [] (omega arith) in
    ap parse_uint e ∙ ap (λ t. scan t 0) (sym e) ∙ scan-digits (suc n) n [] (omega arith) fits

atoi_of_digit :
    (c : ℕ) (s : Text) (n : ℕ)
    → b'0' ≤ c
    → n < 2 ^ 63
    → parse_uint (c ∷ s) ≡ some n
    → atoi (c ∷ s) ≡ pos n
unfolding atoi
atoi_of_digit c s n le fits h = rw h (ground arith)

at_most-IsInt : (n : ℕ) → IsInt (at_most n)
at_most-IsInt n = ground arith

at_least-IsInt : (n : ℕ) → IsInt (at_least n)
at_least-IsInt zero = omega arith
at_least-IsInt (suc n) = ground arith

read_most-IsInt : (o : Option ℕ) → IsInt (read_most o)
read_most-IsInt none = omega arith
read_most-IsInt (some n) = at_most-IsInt n

read_least-IsInt : (o : Option ℕ) → IsInt (read_least o)
read_least-IsInt none = omega arith
read_least-IsInt (some n) = at_least-IsInt n

if-IsInt : (b : Bool) (x y : ℤ) → IsInt x → IsInt y → IsInt (if b then x else y)
if-IsInt true x y hx hy = hx
if-IsInt false x y hx hy = hy

-- Whatever the text is, the number that is read fits.
pub atoi-IsInt : (s : Text) → IsInt (atoi s)
unfolding atoi
atoi-IsInt [] = omega arith
atoi-IsInt (c ∷ s) =
    if-IsInt (nat_eqb c b'-') (read_least (parse_uint s))
      (if nat_eqb c b'+' then read_most (parse_uint s) else read_most (parse_uint (c ∷ s)))
      (read_least-IsInt (parse_uint s))
      (if-IsInt (nat_eqb c b'+') (read_most (parse_uint s)) (read_most (parse_uint (c ∷ s)))
        (read_most-IsInt (parse_uint s)) (read_most-IsInt (parse_uint (c ∷ s))))

-- A number that fits is read back from its decimal digits.
pub atoi-itoa : (z : ℤ) → IsInt z → atoi (itoa z) ≡ z
unfolding atoi itoa
atoi-itoa (pos n) fits =
    let (c, s, e, le) = digits_head (suc n) n [] (omega arith) in
    ap atoi e
    ∙ atoi_of_digit c s n le fits (ap parse_uint (sym e) ∙ parse_uint-digits n (omega arith))
atoi-itoa (negsuc n) fits = rw (parse_uint-digits (suc n) (omega arith)) (ground arith)
