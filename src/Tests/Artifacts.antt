-- ===== src/Tests/Artifacts.antt =====
-- ArtifactRepo over a table of at most one row, which may be marked as deleted.
use flynn_controller.Prelude.{
  ℕ, ◌≡◌, ◌∙◌, refl, ap, sym, inl, inr, Bool-cases, Bool, true, false, ◌&&◌, Option, none, some, [],
  Text, codes, text_eq, list_eqb, ◌==◌, eq_iff, if◌then◌else◌, arith,
}
use flynn_controller.Types.{Artifact}
use flynn_controller.Sql.{Sql, row, no_rows, unique_violation, clean_uuid, IsSimple, is_simple}
use flynn_controller.Artifacts.{Row, Known, Statements, add}
use flynn_controller.Artifacts.Storing.{Stored, IsTable, IsFound, add-IsFound}

-- a row, and when it was deleted
abbrev World : Type 0
World = Option (Row × Option ℕ)

abbrev new_row : Text → Text → Text → Row
new_row id type uri = record { id = id; type = type; uri = uri; created_at = 4 }

abbrev insert_row : Text → Text → Text → World → Sql ℕ × World
insert_row id type uri none = (row 4, some (new_row id type uri, none))
insert_row id type uri (some r) = (unique_violation, some r)

abbrev find_row : Text → Text → World → Sql Known
find_row type uri none = no_rows
find_row type uri (some (r, deleted)) =
    if r.type == type && r.uri == uri
    then row (record { id = r.id; created_at = r.created_at; deleted_at = deleted })
    else no_rows

abbrev revive_row : Text → World → Bool × World
revive_row id none = (true, none)
revive_row id (some (r, deleted)) =
    if r.id == id then (false, some (r, none)) else (true, some (r, deleted))

abbrev select_row : Text → World → Sql Row
select_row id none = no_rows
select_row id (some (r, none)) = if clean_uuid r.id == id then row r else no_rows
select_row id (some (r, some t)) = no_rows

abbrev table : Statements World
table = record {
  insert = insert_row;
  find = λ type uri w. (find_row type uri w, w);
  revive = revive_row;
  select = λ id w. (select_row id w, w);
  select_all = λ w. (none, w);
}

select_row_live :
    (r : Row) (id : Text) → clean_uuid r.id ≡ id → select_row id (some (r, none)) ≡ row r
select_row_live r id e = ground (arith, eq_iff (clean_uuid r.id) id)

insert_row-Stored :
    (id type uri : Text) (created : ℕ) (w after : World)
    → IsSimple id
    → insert_row id type uri w ≡ (row created, after)
    → Stored table id type uri created after
insert_row-Stored id type uri created none after lower h =
    let r = new_row id type uri in
    let stored : after ≡ some (r, none) = ground arith in
    (
      r,
      ap (λ x. (select_row (clean_uuid id) x, after)) stored
          ∙ ap (λ x. (x, after)) (select_row_live r (clean_uuid id) refl),
      refl,
      refl,
      refl,
      ground arith,
    )
insert_row-Stored id type uri created (some r) after lower h = absurd (ground arith)

-- the row that a find answered
find_row-some :
    (type uri : Text) (k : Known) (w : World)
    → find_row type uri w ≡ row k
    → (r : Row) × (w ≡ some (r, k.deleted_at))
      × (k.id ≡ r.id)
      × (k.created_at ≡ r.created_at)
      × (r.type ≡ type)
      × (r.uri ≡ uri)
find_row-some type uri k none h = absurd (ground arith)
find_row-some type uri k (some (r, deleted)) h =
    elim (Bool-cases (r.type == type && r.uri == uri)) [
      | inl same ↦
          let hit = eq_iff r.type type in
          let here = eq_iff r.uri uri in
          (r, ground arith, ground arith, ground arith, ground arith, ground arith)
      | inr other ↦ absurd (ground arith)
    ]

found-Stored :
    (type uri : Text) (k : Known) (r : Row) (after : World)
    → after ≡ some (r, none)
    → k.id ≡ r.id
    → k.created_at ≡ r.created_at
    → r.type ≡ type
    → r.uri ≡ uri
    → Stored table k.id type uri k.created_at after
found-Stored type uri k r after stored id created t u = (
  r,
  ap (λ x. (select_row (clean_uuid k.id) x, after)) stored
      ∙ ap (λ x. (x, after)) (select_row_live r (clean_uuid k.id) (ap clean_uuid (sym id))),
  ap clean_uuid (sym id),
  t,
  u,
  sym created,
)

revive_row_ok :
    (r : Row) (deleted : Option ℕ) (id : Text) (after : World)
    → revive_row id (some (r, deleted)) ≡ (false, after)
    → after ≡ some (r, none)
revive_row_ok r deleted id after h = elim (Bool-cases (r.id == id)) [
  | inl same ↦ ground arith
  | inr other ↦ absurd (ground arith)
]

table-IsTable : IsTable table
table-IsTable = record {
  insert_select = insert_row-Stored;
  find_select = λ type uri k w after h live.
      let (r, same, id, created, t, u) =
        find_row-some type uri k w (ap (λ (p : Sql Known × World). p.0) h) in
      found-Stored type uri k r after
        (sym (ap (λ (p : Sql Known × World). p.1) h) ∙ same ∙ ap (λ d. some (r, d)) live) id created
        t u;
  revive_select = λ type uri k w w1 after h revived.
      let (r, same, id, created, t, u) =
        find_row-some type uri k w (ap (λ (p : Sql Known × World). p.0) h) in
      let kept = sym (ap (λ (p : Sql Known × World). p.1) h) ∙ same in
      found-Stored type uri k r after
        (revive_row_ok r k.deleted_at k.id after (sym (ap (revive_row k.id) kept) ∙ revived)) id
        created t u;
}

abbrev uuid : World → Text × World
uuid w = (codes "9-9", w)

abbrev image : Artifact
image = record { id = []; type = codes "docker"; uri = codes "docker:///x"; created_at = none }

abbrev known : Row
known = new_row (codes "a-7") (codes "docker") (codes "docker:///x")

abbrev revived : Artifact
revived = record image { id = codes "a7"; created_at = some 4 }

-- an artifact that was deleted is taken over
taken : add table uuid image (some (known, some 6)) ≡ (some revived, some (known, none))
unfolding add list_eqb clean_uuid
taken = refl

add-IsFound_example : IsFound table image revived (some (known, none))
unfolding is_simple
add-IsFound_example =
    add-IsFound table table-IsTable uuid image revived (some (known, some 6)) (some (known, none))
      (λ v. refl) refl taken
