-- ===== src/FormationRepo.antt =====
-- formation.go: the formations as the database stores them. The SQL statements are a record of
-- functions over the world, named for what the statement does.
pub mod Processes
pub mod Storing
pub mod Publishing
pub mod Subscriptions
pub mod Notifying
pub mod Updated
use flynn_controller.Prelude.{
  ℕ, Bool, true, false, Option, none, some, List, [], ◌∷◌, Text, text_eq, list_eqb, ltb,
  if◌then◌else◌, ℤ, pos_part,
}
use flynn_controller.Prelude.Map.{Map}
use flynn_controller.Types.{Formation}
use flynn_controller.Decimal.{itoa, atoi}
use flynn_controller.Sql.{
  Sql, row, no_rows, unique_violation, bad_uuid, failed, fix_row_err, Result, ok, not_found,
  failure, Hstore, clean_uuid,
}

pub record Row : Type 0 where
  pub app_id : Text
  pub release_id : Text
  pub processes : Hstore
  pub created_at : ℕ
  pub updated_at : ℕ

pub record Statements (W : Type 0) : Type 0 where
  -- INSERT INTO formations ... RETURNING created_at, updated_at
  pub insert : Text → Text → Hstore → W → Sql (ℕ × ℕ) × W
  -- UPDATE formations SET processes ..., deleted_at = NULL ... RETURNING created_at, updated_at
  pub revive : Text → Text → Hstore → W → Sql (ℕ × ℕ) × W
  -- SELECT ... WHERE app_id AND release_id AND deleted_at IS NULL
  pub select : Text → Text → W → Sql Row × W
  -- SELECT ... WHERE app_id AND deleted_at IS NULL; `none` is an error of the query
  pub select_app : Text → W → Option (List (Sql Row)) × W
  -- UPDATE formations SET deleted_at = now(), ..., processes = NULL; a true flag is an error
  pub tombstone : Text → Text → W → Bool × W

-- procsHstore
unfoldable pub procs_hstore : Map Text ℤ → Hstore
unfolding itoa
procs_hstore [] = []
procs_hstore ((k, v) ∷ m) = (k, some (itoa v)) ∷ procs_hstore m

-- v.String, of a NULL too
abbrev null_string : Option Text → Text
null_string none = []
null_string (some s) = s

-- the loop of scanFormation
unfoldable pub scan_procs : Hstore → Map Text ℤ
unfolding atoi
scan_procs [] = []
scan_procs ((k, v) ∷ h) =
    let rest = scan_procs h in
    let n = atoi (null_string v) in if ltb 0 (pos_part n) then (k, n) ∷ rest else rest

unfoldable pub formation_of_row : Row → Formation
unfolding scan_procs clean_uuid
formation_of_row r = record {
  app_id = clean_uuid r.app_id;
  release_id = clean_uuid r.release_id;
  processes = scan_procs r.processes;
  created_at = some r.created_at;
  updated_at = some r.updated_at;
}

unfoldable pub scan_formation : Sql Row → Result Formation
unfolding formation_of_row
scan_formation (row r) = ok (formation_of_row r)
scan_formation no_rows = not_found
scan_formation unique_violation = failure
scan_formation bad_uuid = failure
scan_formation failed = failure

-- the loop of List, which stops at the first row that does not scan
unfoldable pub scan_rows : List (Sql Row) → Option (List Formation)
unfolding scan_formation
scan_rows [] = some []
scan_rows (r ∷ rows) =
    let rest = scan_rows rows in
    elim (scan_formation r) [
      | ok f ↦ elim rest [ none ↦ none | some fs ↦ some (f ∷ fs) ]
      | not_found ↦ none
      | failure ↦ none
    ]

-- Scan(&f.CreatedAt, &f.UpdatedAt)
unfoldable pub with_times : Formation → Sql (ℕ × ℕ) → Result Formation
with_times f (row (created, updated)) =
    ok (record f { created_at = some created; updated_at = some updated })
with_times f no_rows = failure
with_times f unique_violation = failure
with_times f bad_uuid = failure
with_times f failed = failure

module _ {W : Type 0} (db : Statements W) where
  -- what follows the INSERT
  unfoldable pub insert_or_update : Formation → Hstore → Sql (ℕ × ℕ) × W → Result Formation × W
  unfolding with_times fix_row_err
  insert_or_update f procs (unique_violation, w) =
      let (updated, w1) = db.revive f.app_id f.release_id procs w in
      (with_times f (fix_row_err updated), w1)
  insert_or_update f procs (inserted, w) = (with_times f inserted, w)

  -- FormationRepo.Add, with the formation as it leaves it
  unfoldable pub add : Formation → W → Result Formation × W
  unfolding insert_or_update procs_hstore fix_row_err
  add f w =
      let procs = procs_hstore f.processes in
      let (inserted, w1) = db.insert f.app_id f.release_id procs w in
      insert_or_update f procs (fix_row_err inserted, w1)

  -- FormationRepo.Get
  unfoldable pub get : Text → Text → W → Result Formation × W
  unfolding scan_formation fix_row_err
  get app_id release_id w =
      let (found, w1) = db.select app_id release_id w in (scan_formation (fix_row_err found), w1)

  -- FormationRepo.List
  unfoldable pub list : Text → W → Option (List Formation) × W
  unfolding scan_rows
  list app_id w =
      let (rows, w1) = db.select_app app_id w in
      elim rows [ none ↦ (none, w1) | some rs ↦ (scan_rows rs, w1) ]

  -- FormationRepo.Remove; a true flag is an error
  unfoldable pub remove : Text → Text → W → Bool × W
  remove app_id release_id w = db.tombstone app_id release_id w
