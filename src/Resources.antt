-- ===== src/Resources.antt =====
-- resource.go: ResourceRepo. The text of Postgres' array of identifiers is read here, too.
pub mod Atomic
pub mod Storing
pub mod Arrays
pub mod Handlers
pub mod Answers
use flynn_controller.Prelude.{
  ℕ, Bool, true, false, Option, none, some, List, [], ◌∷◌, map, Text, text_eq, list_eqb, ◌==◌,
  if◌then◌else◌,
}
use flynn_controller.Prelude.Map.{Map}
use flynn_controller.Strings
use flynn_controller.Types.{Resource}
use flynn_controller.Ids.{matches_id}
use flynn_controller.Sql.{
  Sql, row, no_rows, unique_violation, bad_uuid, failed, fix_row_err, Result, ok, not_found,
  failure, Hstore, strings_of, clean_uuid, row_of, Rows, list_of,
}
use flynn_controller.Sql.Transactions.{Transaction}

pub record Row : Type 0 where
  pub id : Text
  pub provider_id : Text
  pub external_id : Text
  pub env : Hstore
  -- the text of the array of applications
  pub app_ids : Text
  pub created_at : ℕ

pub record Statements (W : Type 0) : Type 0 where
  pub tx : Transaction W
  -- INSERT INTO resources ... RETURNING created_at
  pub insert : Text → Text → Text → Hstore → W → Sql ℕ × W
  -- INSERT INTO app_resources of the application with app_id = $1 OR name = $2, RETURNING app_id
  pub link_known : Text → Text → W → Sql Text × W
  -- the same with name = $1
  pub link_named : Text → Text → W → Sql Text × W
  pub select : Text → W → Sql Row × W
  pub select_by_provider : Text → W → Rows Row × W
  pub select_by_app : Text → W → Rows Row × W

unfoldable pub env_hstore : Map Text Text → Hstore
env_hstore [] = []
env_hstore ((k, v) ∷ m) = (k, some v) ∷ env_hstore m

-- split(s, ",")
unfoldable pub split : Text → List Text
unfolding Strings.split
split [] = []
split (c ∷ s) = Strings.split b',' (c ∷ s)

unfoldable pub but_last : Text → Text
but_last [] = []
but_last (c ∷ []) = []
but_last (c ∷ d ∷ s) = c ∷ but_last (d ∷ s)

-- r.Apps from appIDs. The slice of one byte panics, which the server's recovery answers as it does
-- an error; no array prints as one byte.
unfoldable pub apps_of : Text → Option (List Text)
unfolding split but_last clean_uuid
apps_of [] = some []
apps_of (c ∷ []) = none
apps_of (c ∷ d ∷ s) = some (map clean_uuid (split (but_last (d ∷ s))))

unfoldable pub resource_of_row : Row → Option (List Text) → Result Resource
unfolding strings_of clean_uuid
resource_of_row r none = failure
resource_of_row r (some apps) = ok (record {
  id = clean_uuid r.id;
  provider_id = clean_uuid r.provider_id;
  external_id = r.external_id;
  env = strings_of r.env;
  apps = apps;
  created_at = some r.created_at;
})

unfoldable pub scan_resource : Sql Row → Result Resource
unfolding resource_of_row apps_of
scan_resource (row r) = resource_of_row r (apps_of r.app_ids)
scan_resource no_rows = not_found
scan_resource unique_violation = failure
scan_resource bad_uuid = failure
scan_resource failed = failure

module _ {W : Type 0} (db : Statements W) where
  unfoldable pub get : Text → W → Result Resource × W
  unfolding scan_resource fix_row_err
  get id w = let (found, w1) = db.select id w in (scan_resource (fix_row_err found), w1)

  unfoldable pub provider_list : Text → W → Option (List Resource) × W
  unfolding list_of scan_resource
  provider_list provider_id w =
      let (rows, w1) = db.select_by_provider provider_id w in (list_of scan_resource rows, w1)

  unfoldable pub app_list : Text → W → Option (List Resource) × W
  unfolding list_of scan_resource
  app_list app_id w = let (rows, w1) = db.select_by_app app_id w in (list_of scan_resource rows, w1)

  unfoldable pub link_app : Text → Text → W → Sql Text × W
  unfolding matches_id
  link_app id app w = if matches_id app then db.link_known app id w else db.link_named app id w

  abbrev with_app : Text → Option (List Text) → Option (List Text)
  with_app app none = none
  with_app app (some apps) = some (clean_uuid app ∷ apps)

  -- the loop over r.Apps, with what it writes to them
  unfoldable pub link_apps : Text → List Text → W → Option (List Text) × W
  unfolding link_app row_of fix_row_err
  link_apps id [] w = (some [], w)
  link_apps id (app ∷ apps) w =
      let (linked, w1) = link_app id app w in
      elim (row_of (fix_row_err linked)) [
        | none ↦ (none, db.tx.rollback w1)
        | some found ↦ let (rest, w2) = link_apps id apps w1 in (with_app found rest, w2)
      ]

  -- behind the loop
  unfoldable pub commit_resource : Resource → Option (List Text) × W → Option Resource × W
  unfolding clean_uuid
  commit_resource r (none, w) = (none, w)
  commit_resource r (some apps, w) =
      let (bad, w1) = db.tx.commit w in
      (if bad then none else some (record r { id = clean_uuid r.id; apps = apps }), w1)

  -- from the INSERT on
  unfoldable pub insert_resource : Resource → W → Option Resource × W
  unfolding commit_resource link_apps env_hstore row_of fix_row_err
  insert_resource r w =
      let (inserted, w1) = db.insert r.id r.provider_id r.external_id (env_hstore r.env) w in
      elim (row_of (fix_row_err inserted)) [
        | none ↦ (none, db.tx.rollback w1)
        | some created ↦
            commit_resource (record r { created_at = some created }) (link_apps r.id r.apps w1)
      ]

  unfoldable pub identified : (W → Text × W) → Resource → W → Resource × W
  unfolding list_eqb
  identified uuid r w =
      if r.id == [] then (let (id, w1) = uuid w in (record r { id = id }, w1)) else (r, w)

  -- ResourceRepo.Add, with the resource as it leaves it; `none` is an error
  unfoldable pub add : (W → Text × W) → Resource → W → Option Resource × W
  unfolding identified insert_resource
  add uuid r w =
      let (named, w1) = identified uuid r w in
      let (bad, w2) = db.tx.begin w1 in if bad then (none, w2) else insert_resource named w2
