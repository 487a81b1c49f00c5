-- ===== src/Tests/Providers.antt =====
-- ProviderRepo over a table of one row.
use flynn_controller.Prelude.{
  ◌≡◌, refl, ap, sym, ◌∙◌, true, Option, none, some, [], Text, codes, text_eq, list_eqb, ◌==◌,
  beq_refl, if◌then◌else◌, arith,
}
use flynn_controller.Types.{Provider}
use flynn_controller.Ids.{matches_id}
use flynn_controller.Sql.{Sql, row, no_rows, clean_uuid}
use flynn_controller.Providers.{Row, Inserted, Statements, add}
use flynn_controller.Providers.Storing.{IsTable}

abbrev World : Type 0
World = Option Row

abbrev new_id : Text
new_id = codes "00112233-4455-4677-8899-aabbccddeeff"

abbrev new_row : Text → Text → Row
new_row name url = record { id = new_id; name = name; url = url; created_at = 1; updated_at = 2 }

abbrev inserted_row : Inserted
inserted_row = record { id = new_id; created_at = 1; updated_at = 2 }

abbrev known_row : Text → World → Sql Row
known_row id none = no_rows
known_row id (some r) =
    if clean_uuid r.id == id then row r else if r.name == id then row r else no_rows

abbrev named_row : Text → World → Sql Row
named_row id none = no_rows
named_row id (some r) = if r.name == id then row r else no_rows

abbrev table : Statements World
table = record {
  insert = λ name url w. (row inserted_row, some (new_row name url));
  select_known = λ id w. (known_row id w, w);
  select_named = λ id w. (named_row id w, w);
  select_all = λ w. (none, w);
}

table-IsTable : IsTable table
table-IsTable = record {
  insert_named = λ name url i w after h.
      let r = new_row name url in
      let stored : after ≡ some r = ground arith in
      (
        r,
        ap (λ x. (named_row name x, after)) stored
            ∙ ap (λ b. ((if b then row r else no_rows), after)) (beq_refl name),
        (ground arith, refl, refl, ground arith, ground arith),
      );
  insert_known = λ name url i w after h.
      let r = new_row name url in
      let stored : after ≡ some r = ground arith in
      let id : new_id ≡ i.id = ground arith in
      (
        r,
        ap (λ x. (known_row (clean_uuid i.id) x, after)) stored
            ∙ ap (λ y. (known_row (clean_uuid y) (some r), after)) (sym id)
            ∙ ap
                (λ b. (
                  (if b then row r else if name == clean_uuid new_id then row r else no_rows),
                  after,
                ))
                (beq_refl (clean_uuid new_id)),
        (id, refl, refl, ground arith, ground arith),
      );
}

abbrev provider : Provider
provider = record {
  id = [];
  url = codes "discoverd+http://pg";
  name = codes "pg";
  created_at = none;
  updated_at = none;
}

abbrev added : Provider
added = record provider {
  id = codes "00112233445546778899aabbccddeeff";
  created_at = some 1;
  updated_at = some 2;
}

abbrev after : World
after = some (new_row (codes "pg") (codes "discoverd+http://pg"))

stored : add table provider none ≡ (some added, after)
unfolding add list_eqb clean_uuid
stored = refl

matched : matches_id (codes "00112233445546778899aabbccddeeff") ≡ true
unfolding matches_id
matched = refl
