-- ===== src/Releases/Storing.antt =====
-- ReleaseRepo over a table and a codec that keep what they are given.
use flynn_controller.Prelude.{
  ℕ, ◌≡◌, ◌∙◌, refl, ap, sym, some, List, [], ◌∷◌, Text, arith, Option-cases, inl, inr, subst,
  Bool-cases, ◌==◌, text_eq,
}
use flynn_controller.Types.{Release}
use flynn_controller.Sql.{row, fix_row_err, ok, clean_uuid, row_of, IsSimple}
use flynn_controller.Sql.Laws.{row_of-some, fix_row_err-row}
use flynn_controller.Releases.{
  Document, Json, Row, Statements, document_of, or_else_map, fill, release_of_document,
  scan_release, identified, insert_release, add, get,
}

-- Reading a written document gives it back.
abbrev pub Decodes : Json → Type 0
Decodes json = (d : Document) (text : Text) → json.encode d ≡ some text → json.decode text ≡ some d

-- A read finds the row that was written, whose identifiers are simple. Postgres takes an
-- identifier with or without dashes, and may print it with them.
abbrev pub Keeps : {W : Type 0} → Statements W → Type 0
Keeps {W} db =
    (id artifact_id text : Text) (created : ℕ) (w after : W)
    → IsSimple id
    → IsSimple artifact_id
    → db.insert id artifact_id text w ≡ (row created, after)
    → (found : Row) × (db.select (clean_uuid id) after ≡ (row found, after))
      × (clean_uuid found.id ≡ clean_uuid id)
      × (clean_uuid found.artifact_id ≡ clean_uuid artifact_id)
      × (found.document ≡ text)
      × (found.created_at ≡ created)

or_else_map-nil : {V : Type 0} (m : List (Text × V)) → or_else_map m [] ≡ m
or_else_map-nil [] = refl
or_else_map-nil (e ∷ m) = refl

module _ (json : Json) {W : Type 0} (db : Statements W) (uuid : W → Text × W) where
  abbrev stored : Release → ℕ → Release
  stored r created = record r {
    id = clean_uuid r.id;
    artifact_id = clean_uuid r.artifact_id;
    created_at = some created;
  }

  insert_release_row :
      (text : Text) (r s : Release) (w after : W)
      → insert_release json db uuid text (r, w) ≡ (some s, after)
      → (created : ℕ) × (db.insert r.id r.artifact_id text w ≡ (row created, after))
        × (s ≡ stored r created)
  unfolding insert_release
  insert_release_row text r s w after h =
      let (inserted, w1) = db.insert r.id r.artifact_id text w in
      elim (Option-cases (row_of (fix_row_err inserted))) [
        | inl e ↦ absurd (ground arith)
        | inr (created, e) ↦
            let known = row_of-some inserted created e in (created, ground arith, ground arith)
      ]

  identified-document :
      (r : Release) (w : W) → document_of (identified json db uuid r w).0 ≡ document_of r
  unfolding identified
  identified-document r w = ground arith

  fill-document_of :
      (r : Release) (created : ℕ) (found : Row)
      → clean_uuid found.id ≡ clean_uuid r.id
      → clean_uuid found.artifact_id ≡ clean_uuid r.artifact_id
      → found.created_at ≡ created
      → release_of_document found (some (document_of r)) ≡ ok (stored r created)
  unfolding release_of_document fill
  fill-document_of r created found id artifact at =
      ground (arith, or_else_map-nil r.env, or_else_map-nil r.processes)

  insert_release-get :
      (text : Text) (r s : Release) (w after : W)
      → Decodes json
      → Keeps db
      → IsSimple r.id
      → IsSimple r.artifact_id
      → json.encode (document_of r) ≡ some text
      → insert_release json db uuid text (r, w) ≡ (some s, after)
      → get json db s.id after ≡ (ok s, after)
  unfolding get scan_release fix_row_err
  insert_release-get text r s w after decodes keeps lower artifact_lower e h =
      let (created, inserted, same) = insert_release_row text r s w after h in
      let (found, read, id, artifact, document, at) =
        keeps r.id r.artifact_id text created w after lower artifact_lower inserted in
      let decoded = ap json.decode document ∙ decodes (document_of r) text e in
      ap (λ (x : Release). get json db x.id after) same
      ∙ fix_row_err-row (scan_release json) (db.select (clean_uuid r.id) after) found s after read (
          ap (release_of_document found) decoded
          ∙ fill-document_of r created found id artifact at
          ∙ ap ok (sym same))

  identified-IsSimple :
      (r : Release) (w : W)
      → ((v : W) → IsSimple (uuid v).0)
      → IsSimple r.id
      → IsSimple (identified json db uuid r w).0.id
  unfolding identified
  identified-IsSimple r w random lower = elim (Bool-cases (r.id == [])) [
    | inl blank ↦ rw blank (random w)
    | inr given ↦ rw given lower
  ]

  identified-artifact :
      (r : Release) (w : W) → (identified json db uuid r w).0.artifact_id ≡ r.artifact_id
  unfolding identified
  identified-artifact r w = ground arith

  -- When documents are read back as they were written, and rows as they were inserted, a release
  -- that was added without an error is found by the identifier that the call gave it, and what is
  -- found is the release as the call left it. The identifiers of the release and its artifact are
  -- of digits, letters in lower case and dashes, and so are those that UUID makes.
  pub add-get_release :
      (r s : Release) (w after : W)
      → Decodes json
      → Keeps db
      → ((v : W) → IsSimple (uuid v).0)
      → IsSimple r.id
      → IsSimple r.artifact_id
      → add json db uuid r w ≡ (some s, after)
      → get json db s.id after ≡ (ok s, after)
  unfolding add
  add-get_release r s w after decodes keeps random lower artifact_lower h =
      elim (Option-cases (json.encode (document_of r))) [
        | inl e ↦ absurd (ground arith)
        | inr (text, e) ↦
            let (named, w1) = identified json db uuid r w in
            insert_release-get text named s w1 after decodes keeps
              (identified-IsSimple r w random lower)
              (subst IsSimple (sym (identified-artifact r w)) artifact_lower)
              (ap json.encode (identified-document r w) ∙ e) (ground arith)
      ]
