-- ===== src/Providers.antt =====
-- provider.go: ProviderRepo.
pub mod Storing
use flynn_controller.Prelude.{
  ℕ, Bool, true, false, Option, none, some, List, [], Text, text_eq, list_eqb, ◌==◌, ◌||◌,
  if◌then◌else◌,
}
use flynn_controller.Types.{Provider}
use flynn_controller.Ids.{matches_id}
use flynn_controller.Sql.{
  Sql, row, no_rows, unique_violation, bad_uuid, failed, fix_row_err, Result, ok, not_found,
  failure, clean_uuid, row_of, Rows, list_of,
}

pub record Row : Type 0 where
  pub id : Text
  pub name : Text
  pub url : Text
  pub created_at : ℕ
  pub updated_at : ℕ

-- what the INSERT returns
pub record Inserted : Type 0 where
  pub id : Text
  pub created_at : ℕ
  pub updated_at : ℕ

pub record Statements (W : Type 0) : Type 0 where
  -- INSERT INTO providers (name, url) ... RETURNING
  pub insert : Text → Text → W → Sql Inserted × W
  -- SELECT ... WHERE (provider_id = $1 OR name = $2) LIMIT 1
  pub select_known : Text → W → Sql Row × W
  -- SELECT ... WHERE name = $1
  pub select_named : Text → W → Sql Row × W
  pub select_all : W → Rows Row × W

unfoldable pub provider_of_row : Row → Provider
unfolding clean_uuid
provider_of_row r = record {
  id = clean_uuid r.id;
  url = r.url;
  name = r.name;
  created_at = some r.created_at;
  updated_at = some r.updated_at;
}

unfoldable pub scan_provider : Sql Row → Result Provider
unfolding provider_of_row
scan_provider (row r) = ok (provider_of_row r)
scan_provider no_rows = not_found
scan_provider unique_violation = failure
scan_provider bad_uuid = failure
scan_provider failed = failure

unfoldable pub stored_provider : Provider → Option Inserted → Option Provider
unfolding clean_uuid
stored_provider p none = none
stored_provider p (some i) = some (record p {
  id = clean_uuid i.id;
  created_at = some i.created_at;
  updated_at = some i.updated_at;
})

module _ {W : Type 0} (db : Statements W) where
  -- ProviderRepo.Add, with the provider as it leaves it; `none` is an error
  unfoldable pub add : Provider → W → Option Provider × W
  unfolding stored_provider row_of fix_row_err list_eqb
  add p w =
      if p.name == [] || p.url == []
      then (none, w)
      else (let (inserted, w1) = db.insert p.name p.url w in
          (stored_provider p (row_of (fix_row_err inserted)), w1))

  unfoldable pub select_row : Text → W → Sql Row × W
  unfolding matches_id
  select_row id w = if matches_id id then db.select_known id w else db.select_named id w

  unfoldable pub get : Text → W → Result Provider × W
  unfolding select_row scan_provider fix_row_err
  get id w = let (found, w1) = select_row id w in (scan_provider (fix_row_err found), w1)

  unfoldable pub list : W → Option (List Provider) × W
  unfolding list_of scan_provider
  list w = let (rows, w1) = db.select_all w in (list_of scan_provider rows, w1)
