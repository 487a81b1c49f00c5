-- ===== src/Tests/Ids.antt =====
-- Identifiers.
use flynn_controller.Prelude.{ℕ, ◌≡◌, refl, true, false, List, [], ◌∷◌, Text, codes}
use flynn_controller.Ids.{uuid_of, matches_id}

-- the example of RFC 4122
abbrev printed : Text
printed = codes "f81d4fae-7dec-11d0-a765-00a0c91e6bf6"

matched : matches_id printed ≡ true
unfolding matches_id
matched = refl

abbrev bytes : List ℕ
bytes = 0 ∷ 17 ∷ 34 ∷ 51 ∷ 68 ∷ 85 ∷ 102 ∷ 119 ∷ 136 ∷ 153 ∷ 170 ∷ 187 ∷ 204 ∷ 221 ∷ 238 ∷ 255 ∷ []

made : uuid_of bytes ≡ codes "00112233445546778899aabbccddeeff"
unfolding uuid_of
made = refl

-- a text of other letters is a name
named : matches_id (codes "F81D4FAE7DEC11D0A76500A0C91E6BF6") ≡ false
unfolding matches_id
named = refl

abbrev ids : List Text
ids = codes "a-1" ∷ codes "b-2" ∷ []
