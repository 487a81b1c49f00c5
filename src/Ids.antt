-- ===== src/Ids.antt =====
-- utils/uuid.go and app.go, idPattern: the identifiers that are made, and those that are told from
-- names. The random bytes are an argument.
pub mod Made
pub mod Pattern
use Prim.Native.Nat.{bit_and, bit_or}
use flynn_controller.Prelude.{
  ℕ, zero, suc, ◌+◌, ◌-◌, ◌/◌, ◌%◌, Bool, true, false, Option, none, some, List, [], ◌∷◌, Text, leb,
  ltb, nat_eqb, ◌&&◌, ◌||◌, if◌then◌else◌, get_elem?, set,
}

-- a digit of hex.EncodeToString
unfoldable pub hex_digit : ℕ → ℕ
hex_digit n = if ltb n 10 then b'0' + n else b'a' + (n - 10)

-- hex.EncodeToString
unfoldable pub hex : List ℕ → Text
unfolding hex_digit
hex [] = []
hex (b ∷ bytes) = hex_digit (b / 16) ∷ hex_digit (b % 16) ∷ hex bytes

-- id[i] = f(id[i])
unfoldable pub change_at : ℕ → (ℕ → ℕ) → List ℕ → List ℕ
change_at i f [] = []
change_at zero f (b ∷ bytes) = f b ∷ bytes
change_at (suc i) f (b ∷ bytes) = b ∷ change_at i f bytes

abbrev pub version_byte : ℕ → ℕ
version_byte b = bit_or (bit_and b 0x0f) 0x40

abbrev pub variant_byte : ℕ → ℕ
variant_byte b = bit_or (bit_and b 0x3f) 0x80

-- UUID, of the sixteen bytes that are read
unfoldable pub uuid_of : List ℕ → Text
unfolding hex change_at
uuid_of bytes = hex (change_at 8 variant_byte (change_at 6 version_byte bytes))

-- [a-f0-9]
abbrev pub is_hex : ℕ → Bool
is_hex c = (leb b'a' c && leb c b'f') || (leb b'0' c && leb c b'9')

-- [a-f0-9]{n} and what follows it
unfoldable pub hex_run : ℕ → Text → Option Text
hex_run zero s = some s
hex_run (suc n) [] = none
hex_run (suc n) (c ∷ s) = if is_hex c then hex_run n s else none

-- -?
unfoldable pub optional_dash : Text → Text
optional_dash [] = []
optional_dash (c ∷ s) = if nat_eqb c b'-' then s else c ∷ s

-- $
unfoldable pub is_end : Option Text → Bool
is_end none = false
is_end (some []) = true
is_end (some (c ∷ s)) = false

-- ([a-f0-9]{4}-?){k}[a-f0-9]{12}$ behind an optional dash. A dash is no digit, so the choice of
-- each -? is forced.
unfoldable pub matches_groups : ℕ → Option Text → Bool
unfolding hex_run optional_dash is_end
matches_groups k none = false
matches_groups zero (some s) = is_end (hex_run 12 (optional_dash s))
matches_groups (suc k) (some s) = matches_groups k (hex_run 4 (optional_dash s))

-- idPattern.MatchString: ^[a-f0-9]{8}-?([a-f0-9]{4}-?){3}[a-f0-9]{12}$
unfoldable pub matches_id : Text → Bool
unfolding matches_groups hex_run
matches_id s = matches_groups 3 (hex_run 8 s)
