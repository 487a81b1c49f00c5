-- ===== src/Apps/Finding.antt =====
-- AppRepo over a table: what Add stored, Get finds.
use flynn_controller.Prelude.{
  ℕ, subst, ◌≡◌, ◌∙◌, refl, ap, sym, Bool, true, false, some, Text, text_eq, [], arith, Bool-cases,
  inl, inr, ◌==◌,
}
use flynn_controller.Types.{App}
use flynn_controller.Ids.{matches_id}
use flynn_controller.Sql.{
  Sql, row, no_rows, unique_violation, bad_uuid, failed, fix_row_err, ok, clean_uuid, strings_of,
  IsSimple,
}
use flynn_controller.Sql.Laws.{fix_row_err-row}
use flynn_controller.Apps.{
  DefaultRoute, default_route, stored_app, identified, with_default_route, insert_app, add_app,
}
use flynn_controller.Apps.Stored.{
  Row, Statements, app_of_row, scan_app, select_row, select_app, get,
}

module _ {W : Type 0} (db : Statements W) where
  get_of_known :
      (id : Text) (r : Row) (s : App) (w : W)
      → matches_id id ≡ true
      → db.select_known false id w ≡ (row r, w)
      → app_of_row r ≡ s
      → get db id w ≡ (ok s, w)
  unfolding get select_app select_row scan_app fix_row_err
  get_of_known id r s w known read shown =
      rw known (fix_row_err-row scan_app (db.select_known false id w) r s w read (ap ok shown))

module _ {W : Type 0} (db : Statements W) (uuid : W → Text × W) (insert : App → W → Sql (ℕ × ℕ) × W)
    (create_route : DefaultRoute → W → Bool × W) (default_domain : Text) where
  -- the row of an application
  abbrev pub Shows : Row → App → Type 0
  Shows r app =
      (clean_uuid r.id ≡ clean_uuid app.id)
      × (r.name ≡ app.name)
      × (r.protected ≡ app.protected)
      × (strings_of r.meta ≡ app.meta)

  -- What the code relies on: an inserted row, whose identifier is simple, is found by its name and
  -- by its identifier without dashes, and the router does not touch the table.
  pub record IsTable : Type 0 where
    pub insert_named :
        (app : App) (created updated : ℕ) (w after : W)
        → IsSimple app.id
        → insert app w ≡ (row (created, updated), after)
        → (r : Row) × (db.select_named false app.name after ≡ (row r, after))
          × Shows r app
          × (r.created_at ≡ created)
          × (r.updated_at ≡ updated)
    pub insert_known :
        (app : App) (created updated : ℕ) (w after : W)
        → IsSimple app.id
        → insert app w ≡ (row (created, updated), after)
        → (r : Row) × (db.select_known false (clean_uuid app.id) after ≡ (row r, after))
          × Shows r app
          × (r.created_at ≡ created)
          × (r.updated_at ≡ updated)
    pub route_named :
        (route : DefaultRoute) (name : Text) (found : Sql Row) (w : W)
        → db.select_named false name w ≡ (found, w)
        → db.select_named false name (create_route route w).1 ≡ (found, (create_route route w).1)
    pub route_known :
        (route : DefaultRoute) (id : Text) (found : Sql Row) (w : W)
        → db.select_known false id w ≡ (found, w)
        → db.select_known false id (create_route route w).1 ≡ (found, (create_route route w).1)

  stored_app-some :
      (app s : App) (inserted : Sql (ℕ × ℕ))
      → stored_app app (fix_row_err inserted) ≡ some s
      → (created : ℕ) × (updated : ℕ) × (inserted ≡ row (created, updated))
        × (s ≡ record app { created_at = some created; updated_at = some updated })
  unfolding stored_app fix_row_err
  stored_app-some app s (row (created, updated)) h = (created, updated, refl, ground arith)
  stored_app-some app s no_rows h = absurd (ground arith)
  stored_app-some app s unique_violation h = absurd (ground arith)
  stored_app-some app s bad_uuid h = absurd (ground arith)
  stored_app-some app s failed h = absurd (ground arith)

  module _ (table : IsTable) where
    routed_known :
        (app : App) (id : Text) (found : Sql Row) (w : W)
        → db.select_known false id w ≡ (found, w)
        → let after = with_default_route uuid insert create_route default_domain app w in
          db.select_known false id after ≡ (found, after)
    unfolding with_default_route
    routed_known app id found w h =
        ground (arith, table.route_known (default_route app default_domain) id found w h)

    -- what insert_app stored, and the table behind the INSERT
    inserted_app :
        (app s : App) (w after : W)
        → insert_app uuid insert create_route default_domain app w ≡ (some s, after)
        → let cleaned : App = record app { id = clean_uuid app.id } in
          let w1 = (insert app w).1 in
          (created : ℕ) × (updated : ℕ) × (insert app w ≡ (row (created, updated), w1))
          × (s ≡ record cleaned { created_at = some created; updated_at = some updated })
          × (after ≡ with_default_route uuid insert create_route default_domain cleaned w1)
    unfolding insert_app
    inserted_app app s w after h =
        let (answered, w1) = insert app w in
        let (created, updated, known, same) =
          stored_app-some (record app { id = clean_uuid app.id }) s answered (ground arith) in
        (created, updated, ap (λ x. (x, w1)) known, same, ground arith)

    app_of-Shows :
        (app s : App) (r : Row) (created updated : ℕ)
        → s ≡ record app {
          id = clean_uuid app.id;
          created_at = some created;
          updated_at = some updated;
        }
        → Shows r app
        → r.created_at ≡ created
        → r.updated_at ≡ updated
        → app_of_row r ≡ s
    unfolding app_of_row
    app_of-Shows app s r created updated same shows at changed = ground arith

    insert_app-get_known :
        (app s : App) (w after : W)
        → IsSimple app.id
        → insert_app uuid insert create_route default_domain app w ≡ (some s, after)
        → matches_id s.id ≡ true
        → get db s.id after ≡ (ok s, after)
    insert_app-get_known app s w after lower h known =
        let w1 = (insert app w).1 in
        let (created, updated, inserted, same, routed) = inserted_app app s w after h in
        let (r, read, shows, at, changed) =
          table.insert_known app created updated w w1 lower inserted in
        let named : s.id ≡ clean_uuid app.id = ap (λ (x : App). x.id) same in
        ap (λ x. get db x after) named
        ∙ get_of_known db (clean_uuid app.id) r s after (ap matches_id (sym named) ∙ known)
            (subst (λ x. db.select_known false (clean_uuid app.id) x ≡ (row r, x)) (sym routed)
              (routed_known (record app { id = clean_uuid app.id }) (clean_uuid app.id) (row r) w1
                read))
            (app_of-Shows app s r created updated same shows at changed)

    identified-IsSimple :
        (app : App) (w : W)
        → ((v : W) → IsSimple (uuid v).0)
        → IsSimple app.id
        → IsSimple (identified uuid insert create_route default_domain app w).0.id
    unfolding identified
    identified-IsSimple app w random lower = elim (Bool-cases (app.id == [])) [
      | inl blank ↦ rw blank (random w)
      | inr given ↦ rw given lower
    ]

    -- what AppRepo.Add stored came from the INSERT
    add_app-insert :
        (app s : App) (w after : W)
        → add_app uuid insert create_route default_domain app w ≡ (some s, after)
        → ((v : W) → IsSimple (uuid v).0)
        → IsSimple app.id
        → (named : App) × (w1 : W) × (named.name ≡ app.name)
          × IsSimple named.id
          × (insert_app uuid insert create_route default_domain named w1 ≡ (some s, after))
    unfolding add_app identified
    add_app-insert app s w after h random lower =
        let (named, w1) = identified uuid insert create_route default_domain app w in
        (named, w1, ground arith, identified-IsSimple app w random lower, ground arith)

    -- An application that was added without an error is found by its identifier, as the call left
    -- it, if idPattern matches the identifier, and identifiers are simple.
    pub add_app-get_by_id :
        (app s : App) (w after : W)
        → ((v : W) → IsSimple (uuid v).0)
        → IsSimple app.id
        → add_app uuid insert create_route default_domain app w ≡ (some s, after)
        → matches_id s.id ≡ true
        → get db s.id after ≡ (ok s, after)
    add_app-get_by_id app s w after random lower h known =
        let (named, w1, name, small, inserted) = add_app-insert app s w after h random lower in
        insert_app-get_known named s w1 after small inserted known
