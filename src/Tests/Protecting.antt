-- ===== src/Tests/Protecting.antt =====
-- AppRepo.Update over one application. The world is the protection that is committed, and the one
-- that the transaction works on.
use flynn_controller.Prelude.{
  ◌≡◌, refl, ap, sym, Bool, true, false, none, some, [], ◌∷◌, Text, codes, text_eq, list_eqb, arith,
}
use flynn_controller.Prelude.Map
use flynn_controller.Prelude.Map.{Map}
use flynn_controller.Types.{App}
use flynn_controller.Sql.{row, failed, ok}
use flynn_controller.Crud.{Value, boolean, other}
use flynn_controller.Apps.Stored.{Row, Statements, select_app, update}
use flynn_controller.Apps.Protecting.{IsStore}
use flynn_controller.Apps.Changing.{protected_to, update_protects}

abbrev World : Type 0
World = Bool × Bool

abbrev committed : World → Bool
committed w = w.0

abbrev working : World → Bool
working w = w.1

abbrev site_row : Bool → Row
site_row protected = record {
  id = codes "a-1";
  name = codes "site";
  protected = protected;
  meta = [];
  created_at = 1;
  updated_at = 2;
}

abbrev table : Statements World
table = record {
  tx = record {
    begin = λ w. (false, (w.0, w.0));
    rollback = λ w. (w.0, w.0);
    commit = λ w. (false, (w.1, w.1));
  };
  select_known = λ update id w. (row (site_row w.1), w);
  select_named = λ update id w. (row (site_row w.1), w);
  set_protected = λ id b w. (false, (w.0, b));
  select_all = λ w. (none, w);
  set_release_id = λ id r w. (true, w);
  select_release = λ id w. (failed, w);
}

abbrev set : Text → Bool → Bool → Bool
set id b d = b

table-IsStore : IsStore table set committed working
table-IsStore = record {
  tx = record {
    begin_keeps = λ w. refl;
    begin_copies = λ w after h. ap working (sym (ap (λ (p : Bool × World). p.1) h));
    rollback_keeps = λ w. refl;
    commit_publishes = λ w after h. ap committed (sym (ap (λ (p : Bool × World). p.1) h));
    commit_fails = λ w after h. absurd (ground arith);
  };
  known_keeps = λ id w. (refl, refl);
  named_keeps = λ id w. (refl, refl);
  set_keeps = λ id b w. refl;
  set_row = λ id b w after h. ap working (sym (ap (λ (p : Bool × World). p.1) h));
}

abbrev fields : Map Text Value
fields = (codes "name", other) ∷ (codes "protected", boolean true) ∷ []

abbrev site : Bool → App
site protected = record {
  id = codes "a1";
  name = codes "site";
  protected = protected;
  meta = [];
  created_at = some 1;
  updated_at = some 2;
}

-- The times of the row stay.
updated : update table (codes "site") fields (false, false) ≡ (some (site true), (true, true))
unfolding update list_eqb
updated = refl

update_protects_example :
    (app : App) × ((select_app table true (codes "site") (false, false)).0 ≡ ok app)
    × (site true ≡ record app { protected = true })
    × (true ≡ protected_to set app true false)
unfolding Map.get list_eqb
update_protects_example =
    update_protects table set committed working table-IsStore (codes "site") fields (site true)
      (false, false) (true, true) (refl, (refl, tt)) updated

refused :
    update table (codes "site") ((codes "protected", other) ∷ []) (false, false)
    ≡ (none, (false, false))
unfolding update list_eqb
refused = refl
