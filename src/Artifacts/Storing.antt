-- ===== src/Artifacts/Storing.antt =====
-- ArtifactRepo over a table: an artifact is found whichever way Add went.
use flynn_controller.Prelude.{
  ℕ, ◌≡◌, ◌∙◌, refl, ap, sym, subst, false, none, some, Text, arith, Option-cases, Bool-cases, inl,
  inr, [], ◌==◌, text_eq,
}
use flynn_controller.Types.{Artifact}
use flynn_controller.Sql.{
  Sql, row, no_rows, unique_violation, bad_uuid, failed, fix_row_err, ok, clean_uuid, row_of,
  IsSimple,
}
use flynn_controller.Sql.Laws.{row_of-some, fix_row_err-row}
use flynn_controller.Artifacts.{
  Row, Known, Statements, cleaned, artifact_of_row, scan_artifact, take_over, insert_or_take,
  identified, insert_artifact, add, get,
}

module _ {W : Type 0} (db : Statements W) where
  -- A read by the identifier without dashes finds the row.
  abbrev pub Stored : Text → Text → Text → ℕ → W → Type 0
  Stored id type uri created w =
      (found : Row) × (db.select (clean_uuid id) w ≡ (row found, w))
      × (clean_uuid found.id ≡ clean_uuid id)
      × (found.type ≡ type)
      × (found.uri ≡ uri)
      × (found.created_at ≡ created)

  -- What the code relies on: a row that was inserted under a simple identifier, that was found and
  -- is not deleted, or that was found and then revived, is read.
  pub record IsTable : Type 0 where
    pub insert_select :
        (id type uri : Text) (created : ℕ) (w after : W)
        → IsSimple id
        → db.insert id type uri w ≡ (row created, after)
        → Stored id type uri created after
    pub find_select :
        (type uri : Text) (k : Known) (w after : W)
        → db.find type uri w ≡ (row k, after)
        → k.deleted_at ≡ none
        → Stored k.id type uri k.created_at after
    pub revive_select :
        (type uri : Text) (k : Known) (w w1 after : W)
        → db.find type uri w ≡ (row k, w1)
        → db.revive k.id w1 ≡ (false, after)
        → Stored k.id type uri k.created_at after

  -- The artifact is as a read of its identifier answers it.
  abbrev pub IsFound : Artifact → Artifact → W → Type 0
  IsFound a b after = (get db b.id after ≡ (ok b, after)) × (b.type ≡ a.type) × (b.uri ≡ a.uri)

  Stored-IsFound :
      (a b : Artifact) (id : Text) (created : ℕ) (after : W)
      → b ≡ cleaned a id created
      → Stored id a.type a.uri created after
      → IsFound a b after
  unfolding get scan_artifact fix_row_err artifact_of_row
  Stored-IsFound a b id created after same (found, read, named, type, uri, at) = (
    ap (λ (x : Artifact). get db x.id after) same
        ∙ fix_row_err-row scan_artifact (db.select (clean_uuid id) after) found b after read
            (ap ok (ground arith ∙ sym same)),
    ap (λ (x : Artifact). x.type) same,
    ap (λ (x : Artifact). x.uri) same,
  )

  module _ (table : IsTable) where
    take_over-IsFound :
        (a b : Artifact) (known : Sql Known) (w w1 after : W)
        → db.find a.type a.uri w ≡ (known, w1)
        → take_over db a (row_of (fix_row_err known), w1) ≡ (some b, after)
        → IsFound a b after
    unfolding take_over
    take_over-IsFound a b known w w1 after e h = elim (Option-cases (row_of (fix_row_err known))) [
      | inl bad ↦ absurd (ground arith)
      | inr (k, got) ↦
          let found : db.find a.type a.uri w ≡ (row k, w1) =
            e ∙ ap (λ s. (s, w1)) (row_of-some known k got) in
          elim (Option-cases k.deleted_at) [
            | inl live ↦ Stored-IsFound a b k.id k.created_at after (ground arith) (
                subst (Stored k.id a.type a.uri k.created_at) (ground arith)
                  (table.find_select a.type a.uri k w w1 found live))
            | inr (t, dead) ↦ elim (Bool-cases (db.revive k.id w1).0) [
              | inl bad ↦ absurd (ground arith)
              | inr good ↦
                  Stored-IsFound a b k.id k.created_at after (ground arith)
                    (table.revive_select a.type a.uri k w w1 after found (ground arith))
            ]
          ]
    ]

    insert_or_take-IsFound :
        (a b : Artifact) (inserted : Sql ℕ) (w w1 after : W)
        → IsSimple a.id
        → db.insert a.id a.type a.uri w ≡ (inserted, w1)
        → insert_or_take db a (fix_row_err inserted, w1) ≡ (some b, after)
        → IsFound a b after
    unfolding insert_or_take fix_row_err
    insert_or_take-IsFound a b (row created) w w1 after lower e h =
        Stored-IsFound a b a.id created after (ground arith)
          (table.insert_select a.id a.type a.uri created w after lower (ground arith))
    insert_or_take-IsFound a b unique_violation w w1 after lower e h =
        let (known, w2) = db.find a.type a.uri w1 in take_over-IsFound a b known w1 w2 after refl h
    insert_or_take-IsFound a b no_rows w w1 after lower e h = absurd (ground arith)
    insert_or_take-IsFound a b bad_uuid w w1 after lower e h = absurd (ground arith)
    insert_or_take-IsFound a b failed w w1 after lower e h = absurd (ground arith)

    identified_asked :
        (uuid : W → Text × W) (a : Artifact) (w : W)
        → ((identified db uuid a w).0.type ≡ a.type) × ((identified db uuid a w).0.uri ≡ a.uri)
    unfolding identified
    identified_asked uuid a w = (ground arith, ground arith)

    identified-IsSimple :
        (uuid : W → Text × W) (a : Artifact) (w : W)
        → ((v : W) → IsSimple (uuid v).0)
        → IsSimple a.id
        → IsSimple (identified db uuid a w).0.id
    unfolding identified
    identified-IsSimple uuid a w random lower = elim (Bool-cases (a.id == [])) [
      | inl blank ↦ rw blank (random w)
      | inr given ↦ rw given lower
    ]

    -- Over a table that keeps what it is given, an artifact that was added without an error, new,
    -- known or deleted before, is found by the identifier that the call gave it, with the type and
    -- the location that were asked for. The identifier of the call, if any, is of digits,
    -- letters in lower case and dashes, and so are those that UUID makes.
    pub add-IsFound :
        (uuid : W → Text × W) (a b : Artifact) (w after : W)
        → ((v : W) → IsSimple (uuid v).0)
        → IsSimple a.id
        → add db uuid a w ≡ (some b, after)
        → IsFound a b after
    unfolding add insert_artifact
    add-IsFound uuid a b w after random lower h =
        let (named, w1) = identified db uuid a w in
        let (inserted, w2) = db.insert named.id named.type named.uri w1 in
        let (read, type, uri) =
          insert_or_take-IsFound named b inserted w1 w2 after
            (identified-IsSimple uuid a w random lower) refl h in
        let (same_type, same_uri) = identified_asked uuid a w in
        (read, type ∙ same_type, uri ∙ same_uri)
