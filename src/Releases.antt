-- ===== src/Releases.antt =====
-- release.go: ReleaseRepo. A release is a row of its two identifiers and of a JSON text with the
-- rest. encoding/json is seen at the fields: a field that is left out is empty, as `omitempty`
-- writes it, and reading sets the fields that are there. The text of a document is a parameter.
pub mod Storing
use flynn_controller.Prelude.{
  ℕ, Bool, true, false, Option, none, some, List, [], ◌∷◌, Text, text_eq, list_eqb, ◌==◌,
  if◌then◌else◌,
}
use flynn_controller.Prelude.Map.{Map}
use flynn_controller.Types.{Release, ProcessType}
use flynn_controller.Sql.{
  Sql, row, no_rows, unique_violation, bad_uuid, failed, fix_row_err, Result, ok, not_found,
  failure, clean_uuid, row_of, Rows, list_of,
}

-- the fields of a JSON document of a release
pub record Document : Type 0 where
  pub id : Text
  pub artifact : Text
  pub env : Map Text Text
  pub processes : Map Text ProcessType
  pub created_at : Option ℕ

-- json.Marshal and json.Unmarshal between documents and texts; `none` is an error
pub record Json : Type 0 where
  pub encode : Document → Option Text
  pub decode : Text → Option Document

pub record Row : Type 0 where
  pub id : Text
  pub artifact_id : Text
  pub document : Text
  pub created_at : ℕ

pub record Statements (W : Type 0) : Type 0 where
  -- INSERT INTO releases (release_id, artifact_id, data) ... RETURNING created_at
  pub insert : Text → Text → Text → W → Sql ℕ × W
  -- SELECT ... WHERE release_id AND deleted_at IS NULL
  pub select : Text → W → Sql Row × W
  pub select_all : W → Rows Row × W

-- releaseCopy
abbrev pub document_of : Release → Document
document_of r = record {
  id = [];
  artifact = [];
  env = r.env;
  processes = r.processes;
  created_at = none;
}

abbrev pub or_else_text : Text → Text → Text
or_else_text [] t = t
or_else_text (c ∷ s) t = c ∷ s

abbrev pub or_else_map : {V : Type 0} → Map Text V → Map Text V → Map Text V
or_else_map [] m = m
or_else_map (e ∷ l) m = e ∷ l

abbrev pub or_else_time : Option ℕ → Option ℕ → Option ℕ
or_else_time none t = t
or_else_time (some n) t = some n

-- json.Unmarshal into a release
unfoldable pub fill : Document → Release → Release
fill d r = record {
  id = or_else_text d.id r.id;
  artifact_id = or_else_text d.artifact r.artifact_id;
  env = or_else_map d.env r.env;
  processes = or_else_map d.processes r.processes;
  created_at = or_else_time d.created_at r.created_at;
}

-- what scanRelease returns of a row, with its document
unfoldable pub release_of_document : Row → Option Document → Result Release
unfolding clean_uuid fill
release_of_document r none = failure
release_of_document r (some d) = ok (
    fill d (record {
      id = clean_uuid r.id;
      artifact_id = clean_uuid r.artifact_id;
      env = [];
      processes = [];
      created_at = some r.created_at;
    }))

module _ (json : Json) where
  unfoldable pub scan_release : Sql Row → Result Release
  unfolding release_of_document
  scan_release (row r) = release_of_document r (json.decode r.document)
  scan_release no_rows = not_found
  scan_release unique_violation = failure
  scan_release bad_uuid = failure
  scan_release failed = failure

  module _ {W : Type 0} (db : Statements W) where
    unfoldable pub get : Text → W → Result Release × W
    unfolding scan_release fix_row_err
    get id w = let (found, w1) = db.select id w in (scan_release (fix_row_err found), w1)

    unfoldable pub list : W → Option (List Release) × W
    unfolding list_of scan_release
    list w = let (rows, w1) = db.select_all w in (list_of scan_release rows, w1)

  module _ {W : Type 0} (db : Statements W) (uuid : W → Text × W) where
    unfoldable pub identified : Release → W → Release × W
    unfolding list_eqb
    identified r w =
        if r.id == [] then (let (id, w1) = uuid w in (record r { id = id }, w1)) else (r, w)

    -- from the INSERT on
    unfoldable pub insert_release : Text → Release × W → Option Release × W
    unfolding row_of fix_row_err clean_uuid
    insert_release text (r, w) =
        let (inserted, w1) = db.insert r.id r.artifact_id text w in
        elim (row_of (fix_row_err inserted)) [
          | none ↦ (none, w1)
          | some created ↦ (
            some (record r {
              id = clean_uuid r.id;
              artifact_id = clean_uuid r.artifact_id;
              created_at = some created;
            }),
            w1,
          )
        ]

    -- ReleaseRepo.Add, with the release as it leaves it
    unfoldable pub add : Release → W → Option Release × W
    unfolding identified insert_release
    add r w = elim (json.encode (document_of r)) [
      | none ↦ (none, w)
      | some text ↦ insert_release text (identified r w)
    ]
