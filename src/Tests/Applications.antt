-- ===== src/Tests/Applications.antt =====
-- AppRepo over a table of one row, and Update over a map of protections.
use flynn_controller.Prelude.{
  ℕ, ◌≡◌, refl, Bool, true, false, Option, none, some, [], ◌∷◌, Text, codes, text_eq, ◌==◌,
  if◌then◌else◌,
}
use flynn_controller.Prelude.Map.{Map}
use flynn_controller.Types.{App}
use flynn_controller.Ids.{matches_id}
use flynn_controller.Sql.{Sql, row, no_rows, failed, Hstore, clean_uuid}
use flynn_controller.Sql.Transactions.{Transaction}
use flynn_controller.Apps.{DefaultRoute}
use flynn_controller.Apps.Stored.{Row, Statements}

abbrev World : Type 0
World = Option Row

abbrev columns : Map Text Text → Hstore
columns [] = []
columns ((k, v) ∷ m) = (k, some v) ∷ columns m

abbrev new_row : App → Row
new_row a = record {
  id = a.id;
  name = a.name;
  protected = a.protected;
  meta = columns a.meta;
  created_at = 1;
  updated_at = 2;
}

abbrev known_row : Text → World → Sql Row
known_row id none = no_rows
known_row id (some r) =
    if clean_uuid r.id == id then row r else if r.name == id then row r else no_rows

abbrev named_row : Text → World → Sql Row
named_row id none = no_rows
named_row id (some r) = if r.name == id then row r else no_rows

abbrev tx : Transaction World
tx = record { begin = λ w. (false, w); rollback = λ w. w; commit = λ w. (false, w) }

abbrev table : Statements World
table = record {
  tx = tx;
  select_known = λ update id w. (known_row id w, w);
  select_named = λ update id w. (named_row id w, w);
  set_protected = λ id b w. (true, w);
  select_all = λ w. (none, w);
  set_release_id = λ id r w. (true, w);
  select_release = λ id w. (failed, w);
}

abbrev uuid : World → Text × World
uuid w = (codes "00112233-4455-4677-8899-aabbccddeeff", w)

abbrev insert : App → World → Sql (ℕ × ℕ) × World
insert a w = (row (1, 2), some (new_row a))

abbrev create : DefaultRoute → World → Bool × World
create r w = (true, w)

abbrev app : App
app = record {
  id = [];
  name = codes "my-site";
  protected = false;
  meta = (codes "team", codes "a") ∷ [];
  created_at = none;
  updated_at = none;
}

abbrev added : App
added = record app {
  id = codes "00112233445546778899aabbccddeeff";
  created_at = some 1;
  updated_at = some 2;
}

abbrev after : World
after = some (new_row (record app { id = codes "00112233-4455-4677-8899-aabbccddeeff" }))

matched : matches_id (codes "00112233445546778899aabbccddeeff") ≡ true
unfolding matches_id
matched = refl
