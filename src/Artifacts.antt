-- ===== src/Artifacts.antt =====
-- artifact.go: ArtifactRepo. An artifact that is there already is taken over, and revived if it was
-- deleted.
pub mod Storing
use flynn_controller.Prelude.{
  ℕ, Bool, true, false, Option, none, some, List, Text, text_eq, list_eqb, ◌==◌, if◌then◌else◌, [],
}
use flynn_controller.Types.{Artifact}
use flynn_controller.Sql.{
  Sql, row, no_rows, unique_violation, bad_uuid, failed, fix_row_err, Result, ok, not_found,
  failure, clean_uuid, row_of, scan_all, Rows,
}

pub record Row : Type 0 where
  pub id : Text
  pub type : Text
  pub uri : Text
  pub created_at : ℕ

pub record Known : Type 0 where
  pub id : Text
  pub created_at : ℕ
  pub deleted_at : Option ℕ

pub record Statements (W : Type 0) : Type 0 where
  -- INSERT INTO artifacts (artifact_id, type, uri) ... RETURNING created_at
  pub insert : Text → Text → Text → W → Sql ℕ × W
  -- SELECT artifact_id, created_at, deleted_at ... WHERE type AND uri
  pub find : Text → Text → W → Sql Known × W
  -- UPDATE artifacts SET deleted_at = NULL WHERE artifact_id; a true flag is an error
  pub revive : Text → W → Bool × W
  -- SELECT ... WHERE artifact_id AND deleted_at IS NULL
  pub select : Text → W → Sql Row × W
  pub select_all : W → Rows Row × W

abbrev pub cleaned : Artifact → Text → ℕ → Artifact
cleaned a id created = record a { id = clean_uuid id; created_at = some created }

unfoldable pub artifact_of_row : Row → Artifact
unfolding clean_uuid
artifact_of_row r = record {
  id = clean_uuid r.id;
  type = r.type;
  uri = r.uri;
  created_at = some r.created_at;
}

-- The value beside an error is not used.
unfoldable pub scan_artifact : Sql Row → Result Artifact
unfolding artifact_of_row
scan_artifact (row r) = ok (artifact_of_row r)
scan_artifact no_rows = not_found
scan_artifact unique_violation = failure
scan_artifact bad_uuid = failure
scan_artifact failed = failure

module _ {W : Type 0} (db : Statements W) where
  -- what follows the SELECT in Add
  unfoldable pub take_over : Artifact → Option Known × W → Option Artifact × W
  unfolding clean_uuid
  take_over a (none, w) = (none, w)
  take_over a (some k, w) = elim k.deleted_at [
    | none ↦ (some (cleaned a k.id k.created_at), w)
    | some t ↦
        let (bad, w1) = db.revive k.id w in
        if bad then (none, w1) else (some (cleaned a k.id k.created_at), w1)
  ]

  -- what follows the INSERT in Add
  unfoldable pub insert_or_take : Artifact → Sql ℕ × W → Option Artifact × W
  unfolding take_over row_of fix_row_err clean_uuid
  insert_or_take a (row created, w) = (some (cleaned a a.id created), w)
  insert_or_take a (unique_violation, w) =
      let (known, w1) = db.find a.type a.uri w in take_over a (row_of (fix_row_err known), w1)
  insert_or_take a (no_rows, w) = (none, w)
  insert_or_take a (bad_uuid, w) = (none, w)
  insert_or_take a (failed, w) = (none, w)

  unfoldable pub identified : (W → Text × W) → Artifact → W → Artifact × W
  unfolding list_eqb
  identified uuid a w =
      if a.id == [] then (let (id, w1) = uuid w in (record a { id = id }, w1)) else (a, w)

  unfoldable pub insert_artifact : Artifact × W → Option Artifact × W
  unfolding insert_or_take fix_row_err
  insert_artifact (a, w) =
      let (inserted, w1) = db.insert a.id a.type a.uri w in
      insert_or_take a (fix_row_err inserted, w1)

  -- ArtifactRepo.Add, with the artifact as it leaves it
  unfoldable pub add : (W → Text × W) → Artifact → W → Option Artifact × W
  unfolding identified insert_artifact
  add uuid a w = insert_artifact (identified uuid a w)

  unfoldable pub get : Text → W → Result Artifact × W
  unfolding scan_artifact fix_row_err
  get id w = let (found, w1) = db.select id w in (scan_artifact (fix_row_err found), w1)

  -- List, which returns no error of the end of the rows
  unfoldable pub list_rows : Rows Row → Option (List Artifact)
  unfolding scan_all scan_artifact
  list_rows none = none
  list_rows (some (rows, broken)) = scan_all scan_artifact rows

  unfoldable pub list : W → Option (List Artifact) × W
  unfolding list_rows
  list w = let (rows, w1) = db.select_all w in (list_rows rows, w1)
