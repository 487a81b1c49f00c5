-- ===== src/Apps.antt =====
-- app.go, AppRepo.Add: the check of an application's name, its row, and its default route. The
-- SQL statement, the client of the router and the random identifiers are functions over the world.
pub mod Names
pub mod Stored
pub mod Finding
pub mod Protecting
pub mod Changing
use flynn_controller.Prelude.{
  ℕ, Bool, true, false, Option, none, some, List, [], ◌∷◌, ◌++◌, Text, codes, text_eq, list_eqb,
  ◌==◌, ◌&&◌, ◌||◌, not, leb, ltb, nat_eqb, length, if◌then◌else◌,
}
use flynn_controller.Types.{App}
use flynn_controller.Sql.{
  Sql, row, no_rows, unique_violation, bad_uuid, failed, fix_row_err, clean_uuid,
}
use flynn_controller.Routes.{route_parent_ref}

-- [a-z\d]
abbrev pub is_name_byte : ℕ → Bool
is_name_byte c = (leb b'a' c && leb c b'z') || (leb b'0' c && leb c b'9')

-- appNamePattern from the start, or behind a dash (`false`), or behind another byte (`true`)
unfoldable pub matches_from : Bool → Text → Bool
matches_from behind [] = behind
matches_from behind (c ∷ s) =
    let joined = matches_from true s in
    let dashed = matches_from false s in
    if is_name_byte c then joined else if nat_eqb c b'-' && behind then dashed else false

-- appNamePattern.MatchString: ^[a-z\d]+(-[a-z\d]+)*$
unfoldable pub matches_name : Text → Bool
unfolding matches_from
matches_name = matches_from false

-- what is created in the router for an application
pub record DefaultRoute : Type 0 where
  pub domain : Text
  pub service : Text
  pub parent_ref : Text

-- Sprintf("%s.%s", app.Name, r.defaultDomain)
abbrev pub route_domain : Text → Text → Text
route_domain name default_domain = name ++ b'.' ∷ default_domain

unfoldable pub default_route : App → Text → DefaultRoute
unfolding route_parent_ref
default_route app default_domain = record {
  domain = route_domain app.name default_domain;
  service = app.name ++ codes "-web";
  parent_ref = route_parent_ref app;
}

unfoldable pub stored_app : App → Sql (ℕ × ℕ) → Option App
stored_app app (row (created, updated)) =
    some (record app { created_at = some created; updated_at = some updated })
stored_app app no_rows = none
stored_app app unique_violation = none
stored_app app bad_uuid = none
stored_app app failed = none

module _ {W : Type 0} (uuid : W → Text × W) (insert : App → W → Sql (ℕ × ℕ) × W)
    (create_route : DefaultRoute → W → Bool × W) (default_domain : Text) where
  unfoldable pub identified : App → W → App × W
  unfolding list_eqb
  identified app w =
      let (id, w1) = uuid w in if app.id == [] then (record app { id = id }, w1) else (app, w)

  -- The error of CreateRoute is only logged.
  unfoldable pub with_default_route : App → W → W
  unfolding default_route list_eqb
  with_default_route app w =
      if not app.protected && not (default_domain == [])
      then (create_route (default_route app default_domain) w).1
      else w

  -- from the INSERT on
  unfoldable pub insert_app : App → W → Option App × W
  unfolding stored_app fix_row_err clean_uuid with_default_route
  insert_app app w =
      let (inserted, w1) = insert app w in
      let cleaned : App = record app { id = clean_uuid app.id } in
      (stored_app cleaned (fix_row_err inserted), with_default_route cleaned w1)

  -- AppRepo.Add; `none` is an error
  unfoldable pub add_app : App → W → Option App × W
  unfolding matches_name identified insert_app list_eqb
  add_app app w =
      if app.name == [] || ltb 30 (length app.name) || not (matches_name app.name)
      then (none, w)
      else (let (named, w1) = identified app w in insert_app named w1)
