-- ===== src/Apps/Stored.antt =====
-- app.go: the rest of AppRepo. An application is looked up by its identifier or its name when the
-- text may be an identifier, and else by its name.
use flynn_controller.Prelude.{
  ℕ, Bool, true, false, Option, none, some, List, [], ◌∷◌, Text, codes, text_eq, list_eqb, ◌==◌,
  if◌then◌else◌, not,
}
use flynn_controller.Prelude.Map.{Map}
use flynn_controller.Types.{App, Release}
use flynn_controller.Ids.{matches_id}
use flynn_controller.Sql.{
  Sql, row, no_rows, unique_violation, bad_uuid, failed, fix_row_err, Result, ok, not_found,
  failure, Hstore, strings_of, clean_uuid, Rows, list_of,
}
use flynn_controller.Sql.Transactions.{Transaction}
use flynn_controller.Releases.{Json, scan_release}
use flynn_controller.Crud.{Value, boolean, other}
use flynn_controller.Releases

pub record Row : Type 0 where
  pub id : Text
  pub name : Text
  pub protected : Bool
  pub meta : Hstore
  pub created_at : ℕ
  pub updated_at : ℕ

pub record Statements (W : Type 0) : Type 0 where
  pub tx : Transaction W
  -- SELECT ... WHERE (app_id = $1 OR name = $2) LIMIT 1, FOR UPDATE if the flag is set
  pub select_known : Bool → Text → W → Sql Row × W
  -- SELECT ... WHERE name = $1
  pub select_named : Bool → Text → W → Sql Row × W
  -- UPDATE apps SET protected; a true flag is an error
  pub set_protected : Text → Bool → W → Bool × W
  pub select_all : W → Rows Row × W
  -- UPDATE apps SET release_id, updated_at = now()
  pub set_release_id : Text → Text → W → Bool × W
  -- SELECT ... FROM apps JOIN releases
  pub select_release : Text → W → Sql Releases.Row × W

unfoldable pub app_of_row : Row → App
unfolding strings_of clean_uuid
app_of_row r = record {
  id = clean_uuid r.id;
  name = r.name;
  protected = r.protected;
  meta = strings_of r.meta;
  created_at = some r.created_at;
  updated_at = some r.updated_at;
}

unfoldable pub scan_app : Sql Row → Result App
unfolding app_of_row
scan_app (row r) = ok (app_of_row r)
scan_app no_rows = not_found
scan_app unique_violation = failure
scan_app bad_uuid = failure
scan_app failed = failure

abbrev pub bool_eqb : Bool → Bool → Bool
bool_eqb true b = b
bool_eqb false b = not b

module _ {W : Type 0} (db : Statements W) where
  unfoldable pub select_row : Bool → Text → W → Sql Row × W
  unfolding matches_id
  select_row update id w =
      if matches_id id then db.select_known update id w else db.select_named update id w

  unfoldable pub select_app : Bool → Text → W → Result App × W
  unfolding select_row scan_app fix_row_err
  select_app update id w =
      let (found, w1) = select_row update id w in (scan_app (fix_row_err found), w1)

  unfoldable pub get : Text → W → Result App × W
  unfolding select_app
  get id w = select_app false id w

  -- case "protected"
  unfoldable pub protect : Value → App → W → Option App × W
  protect other app w = (none, db.tx.rollback w)
  protect (boolean protected) app w =
      let (bad, w1) = db.set_protected app.id protected w in
      if bool_eqb app.protected protected
      then (some app, w)
      else if bad
      then (none, db.tx.rollback w1)
      else (some (record app { protected = protected }), w1)

  unfoldable pub set_field : Text → Value → App → W → Option App × W
  unfolding protect list_eqb
  set_field k v app w = if k == codes "protected" then protect v app w else (some app, w)

  -- the loop over the fields
  unfoldable pub update_fields : Map Text Value → App → W → Option App × W
  unfolding set_field
  update_fields [] app w = (some app, w)
  update_fields ((k, v) ∷ fields) app w =
      let (changed, w1) = set_field k v app w in
      elim changed [ none ↦ (none, w1) | some a ↦ update_fields fields a w1 ]

  unfoldable pub commit_app : Option App × W → Option App × W
  commit_app (none, w) = (none, w)
  commit_app (some app, w) = let (bad, w1) = db.tx.commit w in (if bad then none else some app, w1)

  -- behind the locking read
  unfoldable pub update_selected : Map Text Value → Result App × W → Option App × W
  unfolding update_fields commit_app
  update_selected fields (ok app, w) = commit_app (update_fields fields app w)
  update_selected fields (not_found, w) = (none, db.tx.rollback w)
  update_selected fields (failure, w) = (none, db.tx.rollback w)

  -- AppRepo.Update; `none` is an error
  unfoldable pub update : Text → Map Text Value → W → Option App × W
  unfolding select_app update_selected
  update id fields w =
      let (bad, w1) = db.tx.begin w in
      if bad then (none, w1) else update_selected fields (select_app true id w1)

  unfoldable pub list : W → Option (List App) × W
  unfolding list_of scan_app
  list w = let (rows, w1) = db.select_all w in (list_of scan_app rows, w1)

  -- a true flag is an error
  unfoldable pub set_release : Text → Text → W → Bool × W
  set_release app_id release_id w = db.set_release_id app_id release_id w

  unfoldable pub get_release : Json → Text → W → Result Release × W
  unfolding scan_release fix_row_err
  get_release json id w =
      let (found, w1) = db.select_release id w in (scan_release json (fix_row_err found), w1)
