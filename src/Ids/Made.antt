-- ===== src/Ids/Made.antt =====
-- The identifiers that UUID makes.
use flynn_controller.Prelude.{
  all, Text, ℕ, zero, suc, ◌*◌, ◌/◌, ◌%◌, ◌<◌, ◌≡◌, refl, ap, get_elem?, Bool, true, some, [], ◌∷◌,
  List, arith, All, length, ltb, nat_eqb, ◌&&◌,
}
use flynn_controller.Sql.{clean_uuid, IsSimple, is_simple}
use flynn_controller.Ids.Pattern.{IsHex, IsCleanId, IsCleanId-matches, clean_of_IsHex}
use flynn_controller.Ids.{
  hex_digit, hex, change_at, version_byte, variant_byte, uuid_of, is_hex, matches_id,
}

abbrev pub AreBytes : List ℕ → Type 0
AreBytes = All (λ b. b < 256)

hex_digit-IsHex : (n : ℕ) → n < 16 → is_hex (hex_digit n) ≡ true
unfolding hex_digit
hex_digit-IsHex n h = ground arith

hex-IsHex : (bytes : List ℕ) → AreBytes bytes → IsHex (hex bytes)
unfolding hex
hex-IsHex [] h = tt
hex-IsHex (b ∷ bytes) h = (
  hex_digit-IsHex (b / 16) (omega arith),
  (hex_digit-IsHex (b % 16) (omega arith), hex-IsHex bytes h.1),
)

length-hex : (bytes : List ℕ) → length (hex bytes) ≡ 2 * length bytes
unfolding hex
length-hex [] = refl
length-hex (b ∷ bytes) = omega (arith, length-hex bytes)

length-change_at :
    (i : ℕ) (f : ℕ → ℕ) (bytes : List ℕ) → length (change_at i f bytes) ≡ length bytes
unfolding change_at
length-change_at zero f [] = refl
length-change_at (suc i) f [] = refl
length-change_at zero f (b ∷ bytes) = refl
length-change_at (suc i) f (b ∷ bytes) = ap suc (length-change_at i f bytes)

change_at-AreBytes :
    (i : ℕ) (f : ℕ → ℕ) (bytes : List ℕ)
    → ((b : ℕ) → b < 256 → f b < 256)
    → AreBytes bytes
    → AreBytes (change_at i f bytes)
unfolding change_at
change_at-AreBytes zero f [] k h = tt
change_at-AreBytes (suc i) f [] k h = tt
change_at-AreBytes zero f (b ∷ bytes) k h = (k b h.0, h.1)
change_at-AreBytes (suc i) f (b ∷ bytes) k h = (h.0, change_at-AreBytes i f bytes k h.1)

-- A test that every byte passes.
passes_below : ℕ → (ℕ → Bool) → Bool
passes_below zero p = true
passes_below (suc n) p = p n && passes_below n p

passes_below_sound : (n : ℕ) (p : ℕ → Bool) (b : ℕ) → passes_below n p ≡ true → b < n → p b ≡ true
unfolding passes_below
passes_below_sound zero p b h lt = absurd (omega arith)
passes_below_sound (suc n) p b h lt = ground (arith, passes_below_sound n p b)

version_table :
    passes_below 256 (λ b. ltb (version_byte b) 256 && nat_eqb (version_byte b / 16) 4) ≡ true
unfolding passes_below
version_table = refl

variant_table :
    passes_below 256 (λ b. ltb (variant_byte b) 256 && nat_eqb (variant_byte b / 64) 2) ≡ true
unfolding passes_below
variant_table = refl

version_byte_lem : (b : ℕ) → b < 256 → (version_byte b < 256) × (version_byte b / 16 ≡ 4)
version_byte_lem b h =
    let t =
      passes_below_sound 256 (λ b. ltb (version_byte b) 256 && nat_eqb (version_byte b / 16) 4) b
        version_table h in
    (ground arith, ground arith)

variant_byte_lem : (b : ℕ) → b < 256 → (variant_byte b < 256) × (variant_byte b / 64 ≡ 2)
variant_byte_lem b h =
    let t =
      passes_below_sound 256 (λ b. ltb (variant_byte b) 256 && nat_eqb (variant_byte b / 64) 2) b
        variant_table h in
    (ground arith, ground arith)

-- The digit of the version, in the seventh byte.
version_digit :
    (bytes : List ℕ) → AreBytes bytes → length bytes ≡ 16 → get_elem? (uuid_of bytes) 12 ≡ some b'4'
unfolding uuid_of hex change_at hex_digit
version_digit (a ∷ b ∷ c ∷ d ∷ e ∷ f ∷ g ∷ r) h n = rw (version_byte_lem g h.1.1.1.1.1.1.0).1 refl
version_digit [] h n = absurd (omega arith)
version_digit (a ∷ []) h n = absurd (omega arith)
version_digit (a ∷ b ∷ []) h n = absurd (omega arith)
version_digit (a ∷ b ∷ c ∷ []) h n = absurd (omega arith)
version_digit (a ∷ b ∷ c ∷ d ∷ []) h n = absurd (omega arith)
version_digit (a ∷ b ∷ c ∷ d ∷ e ∷ []) h n = absurd (omega arith)
version_digit (a ∷ b ∷ c ∷ d ∷ e ∷ f ∷ []) h n = absurd (omega arith)

uuid_of-IsCleanId :
    (bytes : List ℕ) → AreBytes bytes → length bytes ≡ 16 → IsCleanId (uuid_of bytes)
unfolding uuid_of
uuid_of-IsCleanId bytes h n =
    let versioned = change_at-AreBytes 6 version_byte bytes (λ b l. (version_byte_lem b l).0) h in
    let varied =
      change_at-AreBytes 8 variant_byte (change_at 6 version_byte bytes)
        (λ b l. (variant_byte_lem b l).0) versioned in
    (
      hex-IsHex (change_at 8 variant_byte (change_at 6 version_byte bytes)) varied,
      omega (
        arith,
        length-hex (change_at 8 variant_byte (change_at 6 version_byte bytes)),
        length-change_at 8 variant_byte (change_at 6 version_byte bytes),
        length-change_at 6 version_byte bytes,
      ),
    )

-- Sixteen bytes give an identifier of 32 hexadecimal digits, which idPattern matches, which
-- cleanUUID leaves alone, and whose digit of the version is 4.
pub uuid_of_lem :
    (bytes : List ℕ)
    → AreBytes bytes
    → length bytes ≡ 16
    → IsCleanId (uuid_of bytes)
      × (matches_id (uuid_of bytes) ≡ true)
      × (clean_uuid (uuid_of bytes) ≡ uuid_of bytes)
      × (get_elem? (uuid_of bytes) 12 ≡ some b'4')
uuid_of_lem bytes h n =
    let clean = uuid_of-IsCleanId bytes h n in
    (
      clean,
      IsCleanId-matches (uuid_of bytes) clean,
      clean_of_IsHex (uuid_of bytes) clean.0,
      version_digit bytes h n,
    )

IsHex-IsSimple : (s : Text) → IsHex s → IsSimple s
unfolding is_simple all
IsHex-IsSimple [] h = refl
IsHex-IsSimple (c ∷ s) h = ground (arith, IsHex-IsSimple s h.1)

-- What UUID makes is read back from the database as it was given.
uuid_of-IsSimple : (bytes : List ℕ) → AreBytes bytes → length bytes ≡ 16 → IsSimple (uuid_of bytes)
uuid_of-IsSimple bytes h n = IsHex-IsSimple (uuid_of bytes) (uuid_of-IsCleanId bytes h n).0
