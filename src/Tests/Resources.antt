-- ===== src/Tests/Resources.antt =====
-- ResourceRepo over a database with one transaction at a time. The world is what is committed, and
-- what the transaction works on.
use flynn_controller.Prelude.{
  ℕ, ◌≡◌, ◌⊎◌, refl, ap, sym, Bool, false, none, some, List, [], ◌∷◌, Text, codes, text_eq,
  list_eqb, ◌==◌, eq_iff, if◌then◌else◌, arith,
}
use flynn_controller.Types.{Provider, Resource}
use flynn_controller.Sql.{Sql, row, failed, Hstore, clean_uuid}
use flynn_controller.Sql.Transactions.{Transaction, IsTransaction}
use flynn_controller.Resources.{Statements, add}
use flynn_controller.Resources.Atomic.{Data, IsStore, add_error}
use flynn_controller.Resources.Storing.{IsNaming, IsStored, add-IsStored}

-- identifiers of resources, and links
abbrev D : Type 0
D = List (Text × Hstore) × List (Text × Text)

abbrev World : Type 0
World = D × D

abbrev committed : World → D
committed w = w.0

abbrev working : World → D
working w = w.1

abbrev tables : Data D
tables = record {
  put_resource = λ id provider external env created d. ((id, env) ∷ d.0, d.1);
  put_link = λ app id d. (d.0, (app, id) ∷ d.1);
}

abbrev tx : Transaction World
tx = record {
  begin = λ w. (false, (w.0, w.0));
  rollback = λ w. (w.0, w.0);
  commit = λ w. (false, (w.1, w.1));
}

tx-IsTransaction : IsTransaction tx committed working
tx-IsTransaction = record {
  begin_keeps = λ w. refl;
  begin_copies = λ w after h. ap working (sym (ap (λ (p : Bool × World). p.1) h));
  rollback_keeps = λ w. refl;
  commit_publishes = λ w after h. ap committed (sym (ap (λ (p : Bool × World). p.1) h));
  commit_fails = λ w after h. absurd (ground arith);
}

-- The only application is "a-1", of the name "web".
abbrev link_row : Text → Text → World → Sql Text × World
link_row app id w =
    if app == codes "web"
    then (row (codes "a-1"), (w.0, tables.put_link (codes "a-1") id w.1))
    else (failed, w)

abbrev Names : D → Text → Text → Type 0
Names d app found = (app ≡ codes "web") × (found ≡ codes "a-1")

abbrev db : Statements World
db = record {
  tx = tx;
  insert = λ id p e env w. (row 3, (w.0, tables.put_resource id p e env 3 w.1));
  link_known = link_row;
  link_named = link_row;
  select = λ id w. (failed, w);
  select_by_provider = λ id w. (none, w);
  select_by_app = λ id w. (none, w);
}

abbrev uuid : World → Text × World
uuid w = (codes "5-5", w)

link_row_keeps : (app id : Text) (w : World) → committed (link_row app id w).1 ≡ committed w
link_row_keeps app id w = ground arith

link_row_some :
    (app id found : Text) (w after : World)
    → link_row app id w ≡ (row found, after)
    → working after ≡ tables.put_link found id (working w)
link_row_some app id found w after h = ground arith

db-IsStore : IsStore db uuid tables committed working
db-IsStore = record {
  tx = tx-IsTransaction;
  uuid_keeps = λ w. refl;
  insert_keeps = λ i p e h w. refl;
  insert_row = λ i p e h t w after s. sym (ap (λ (x : Sql ℕ × World). x.1.1) s);
  known_keeps = link_row_keeps;
  known_row = link_row_some;
  named_keeps = link_row_keeps;
  named_row = link_row_some;
}

link_row_named :
    (app id found : Text) (w after : World)
    → link_row app id w ≡ (row found, after)
    → Names (working w) app found
link_row_named app id found w after h = (ground (arith, eq_iff app (codes "web")), ground arith)

db-IsNaming : IsNaming db tables working Names
db-IsNaming = record {
  known_named = link_row_named;
  named_named = link_row_named;
  resource_keeps = λ i p e h t app found d n. n;
  link_keeps = λ a i app found d n. n;
}

abbrev resource : List Text → Resource
resource apps = record {
  id = [];
  provider_id = codes "p";
  external_id = codes "/db/1";
  env = (codes "URL", codes "pg") ∷ [];
  apps = apps;
  created_at = none;
}

abbrev empty : World
empty = (([], []), ([], []))

-- the second application is not there
refused : add db uuid (resource (codes "web" ∷ codes "gone" ∷ [])) empty ≡ (none, empty)
unfolding add list_eqb
refused = refl

add_error_example : committed empty ≡ committed empty
add_error_example =
    add_error db uuid tables committed working db-IsStore
      (resource (codes "web" ∷ codes "gone" ∷ [])) empty empty refused

abbrev added : Resource
added = record (resource (codes "a1" ∷ [])) { id = codes "55"; created_at = some 3 }

abbrev linked : D
linked =
    ((codes "5-5", (codes "URL", some (codes "pg")) ∷ []) ∷ [], (codes "a-1", codes "5-5") ∷ [])

stored : add db uuid (resource (codes "web" ∷ [])) empty ≡ (some added, (linked, linked))
unfolding add list_eqb clean_uuid
stored = refl

add-IsStored_example :
    (id : Text) × ((◌≡◌ {A = Text} [] []) ⊎ (id ≡ []))
    × IsStored db uuid tables committed working db-IsStore Names db-IsNaming
        (resource (codes "web" ∷ []))
        added
        id
        ([], [])
        linked
add-IsStored_example =
    add-IsStored db uuid tables committed working db-IsStore Names db-IsNaming
      (resource (codes "web" ∷ [])) added empty (linked, linked) stored

abbrev provider : Provider
provider = record {
  id = codes "p2";
  url = [];
  name = codes "pg";
  created_at = none;
  updated_at = none;
}
