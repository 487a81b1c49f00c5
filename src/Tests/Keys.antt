-- ===== src/Tests/Keys.antt =====
-- KeyRepo over a map, and its handlers.
use flynn_controller.Prelude.{
  ℕ, ◌≡◌, ◌∙◌, refl, ap, false, Option, none, some, [], ◌∷◌, Text, codes, text_eq, list_eqb, arith,
}
use flynn_controller.Prelude.Map
use flynn_controller.Prelude.Map.{Map, get-put_self, get-delete_self}
use flynn_controller.Types.{Key}
use flynn_controller.Http.{json, silent}
use flynn_controller.Sql.{Sql, row, no_rows, ok}
use flynn_controller.Keys
use flynn_controller.Keys.{Ssh, Row, Statements, remove}
use flynn_controller.Keys.Storing.{IsTable, add-get_key}
use flynn_controller.Crud.{Repository, post_thing, delete_thing}
use flynn_controller.Crud.Stores.{keys}

abbrev World : Type 0
World = Map Text Row

abbrev found_row : Option Row → Sql Row
found_row none = no_rows
found_row (some r) = row r

abbrev new_row : Text → Text → Text → Row
new_row id key comment = record { fingerprint = id; key = key; comment = comment; created_at = 5 }

abbrev table : Statements World
table = record {
  insert = λ id key comment w. (row 5, Map.put id (new_row id key comment) w);
  select = λ id w. (found_row (Map.get id w), w);
  tombstone = λ id w. (false, Map.delete id w);
  select_all = λ w. (none, w);
}

shown :
    (id key comment : Text) (created : ℕ)
    → created ≡ 5
    → Keys.key_of_row (new_row id key comment)
      ≡ record { id = id; key = key; comment = comment; created_at = some created }
unfolding Keys.key_of_row
shown id key comment created e = ground arith

table-IsTable : IsTable table
table-IsTable = record {
  insert_select = λ id key comment created w after h.
      let r = new_row id key comment in
      let stored : after ≡ Map.put id r w = ground arith in
      (
        r,
        ap (λ (o : Option Row). (found_row o, after))
            (ap (Map.get id) stored ∙ get-put_self id r w),
        shown id key comment created (ground arith),
      );
  tombstone_select = λ id w after h.
      let gone : after ≡ Map.delete id w = ground arith in
      ap (λ (o : Option Row). (found_row o, after)) (ap (Map.get id) gone ∙ get-delete_self id w);
}

-- a key is a text, and its comment stands behind it
abbrev parse_key : Text → Option (Text × Text)
parse_key [] = none
parse_key (c ∷ comment) = some (c ∷ [], comment)

abbrev ssh : Ssh Text
ssh = record { parse = parse_key; marshal = λ k. k; authorized = λ k. k; md5 = λ bytes. bytes }

abbrev repo : Repository World Key
repo = keys ssh table

abbrev decode : Text → Option Key
decode [] = none
decode (c ∷ s) = some (record { id = []; key = c ∷ s; comment = []; created_at = none })

abbrev added : Key
added = record { id = codes "61"; key = codes "a"; comment = codes "-me"; created_at = some 5 }

abbrev after : World
after = (codes "61", new_row (codes "61") (codes "a") (codes "-me")) ∷ []

posted : post_thing repo decode (codes "a-me") [] ≡ (json 200 (some added), after)
unfolding post_thing Keys.add Map.put list_eqb
posted = refl

found : Keys.get table (codes "61") after ≡ (ok added, after)
unfolding Keys.add Map.put list_eqb
found =
    add-get_key table table-IsTable ssh (record added { key = codes "a-me" }) added [] after refl

-- a body that is no key is answered as a success without a body
unread : post_thing repo decode [] after ≡ (silent, after)
unfolding post_thing
unread = refl

deleted : delete_thing repo (codes "61") after ≡ some (silent, [])
unfolding delete_thing Keys.get Keys.remove Map.get Map.delete list_eqb
deleted = refl
