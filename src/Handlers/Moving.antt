-- ===== src/Handlers/Moving.antt =====
-- setAppRelease: the one formation of an application moves to the new release.
use flynn_controller.Prelude.{
  ◌≡◌, ◌≢◌, refl, sym, ◌∙◌, Bool, false, Option, some, List, [], ◌∷◌, Text, text_eq, eq_iff, subst,
  ℕ, Option-cases, Bool-cases, inl, inr, All, ℤ, arith,
}
use flynn_controller.Strings.Laws.{Lacks, remove_all-Lacks, remove_all_of_Lacks}
use flynn_controller.Types.{App, Release, Formation}
use flynn_controller.Decimal.RoundTrip.{IsInt}
use flynn_controller.Sql.{
  Sql, row, no_rows, unique_violation, bad_uuid, failed, Result, ok, not_found, failure, clean_uuid,
}
use flynn_controller.FormationRepo.{
  Row, Statements, procs_hstore, formation_of_row, scan_formation, scan_rows, add, get, list,
  remove,
}
use flynn_controller.FormationRepo.Processes.{
  positive, scan_procs-procs_hstore, scan_procs-IsInt, positive-scan_procs,
}
use flynn_controller.FormationRepo.Storing.{IsTable, Stored, add_stores, get_of_Stored, remove-get}
use flynn_controller.Http.{json}
use flynn_controller.Handlers.{moved_formation, formation_added, move_formation, set_app_release}

-- What holds of a formation that was read from a row.
abbrev pub IsRead : Formation → Type 0
IsRead f =
    Lacks b'-' f.release_id
    × All (λ (e : Text × ℤ). IsInt e.1) f.processes
    × (positive f.processes ≡ f.processes)

formation_of_row-IsRead : (r : Row) → IsRead (formation_of_row r)
unfolding formation_of_row clean_uuid
formation_of_row-IsRead r = (
  remove_all-Lacks b'-' r.release_id,
  scan_procs-IsInt r.processes,
  positive-scan_procs r.processes,
)

clean_uuid_differs :
    (a b : Text) → Lacks b'-' a → Lacks b'-' b → a ≢ b → clean_uuid a ≢ clean_uuid b
unfolding clean_uuid
clean_uuid_differs a b ha hb other e =
    other (sym (remove_all_of_Lacks b'-' a ha) ∙ e ∙ remove_all_of_Lacks b'-' b hb)

scan_rows_one :
    (rows : List (Sql Row)) (f : Formation)
    → scan_rows rows ≡ some (f ∷ [])
    → (r : Row) × (f ≡ formation_of_row r)
unfolding scan_rows scan_formation
scan_rows_one [] f h = absurd (ground arith)
scan_rows_one (row r ∷ rows) f h = elim (Option-cases (scan_rows rows)) [
  | inl bad ↦ absurd (ground arith)
  | inr (fs, e) ↦ (r, ground arith)
]
scan_rows_one (no_rows ∷ rows) f h = absurd (ground arith)
scan_rows_one (unique_violation ∷ rows) f h = absurd (ground arith)
scan_rows_one (bad_uuid ∷ rows) f h = absurd (ground arith)
scan_rows_one (failed ∷ rows) f h = absurd (ground arith)

module _ {W : Type 0} (db : Statements W) where
  list_one :
      (app_id : Text) (w after : W) (f : Formation)
      → list db app_id w ≡ (some (f ∷ []), after)
      → IsRead f
  unfolding list
  list_one app_id w after f h =
      let (rows, w1) = db.select_app app_id w in
      elim (Option-cases rows) [
        | inl bad ↦ absurd (ground arith)
        | inr (rs, e) ↦
            let (r, same) = scan_rows_one rs f (ground arith) in
            subst IsRead (sym same) (formation_of_row-IsRead r)
      ]

  -- The formation has moved to the release.
  abbrev pub Moves : App → Release → Formation → W → Type 0
  Moves app release f after =
      (moved : Formation) × (get db app.id release.id after ≡ (ok moved, after))
      × (moved.processes ≡ f.processes)
      × (get db app.id f.release_id after ≡ (not_found, after))

  after_remove :
      (app : App) (release : Release) (f x : Formation) (w after : W)
      → formation_added db app release f (ok x, w) ≡ (json 200 (some release), after)
      → remove db app.id f.release_id w ≡ (false, after)
  unfolding formation_added
  after_remove app release f x w after h = elim (Bool-cases (remove db app.id f.release_id w).0) [
    | inl bad ↦ absurd (ground arith)
    | inr good ↦ ground arith
  ]

  module _ (table : IsTable db) where
    Stored-remove :
        (a r s : Text) (h : List (Text × Option Text)) (t : ℕ × ℕ) (w after : W) (bad : Bool)
        → clean_uuid r ≢ clean_uuid s
        → remove db a r w ≡ (bad, after)
        → Stored db a s h t w
        → Stored db a s h t after
    unfolding remove
    Stored-remove a r s h t w after bad other e (found, read, names, same, created, updated) = (
      found,
      table.tombstone_other a r s w after bad found e other read,
      names,
      same,
      created,
      updated,
    )

    formation_added-Moves :
        (app : App) (release : Release) (f : Formation) (added : Result Formation)
        (before w after : W)
        → clean_uuid f.release_id ≢ clean_uuid release.id
        → All (λ (e : Text × ℤ). IsInt e.1) f.processes
        → positive f.processes ≡ f.processes
        → add db (moved_formation db app release f) before ≡ (added, w)
        → formation_added db app release f (added, w) ≡ (json 200 (some release), after)
        → Moves app release f after
    unfolding formation_added
    formation_added-Moves app release f (ok x) before w after other fits kept e h =
        let (t, same, stored) =
          add_stores db table (moved_formation db app release f) x before w e in
        let gone = after_remove app release f x w after h in
        let (moved, read, ids, processes, created, updated) =
          get_of_Stored db app.id release.id (procs_hstore f.processes) t after (
            Stored-remove app.id f.release_id release.id (procs_hstore f.processes) t w after false
              other gone stored) in
        (
          moved,
          read,
          processes ∙ scan_procs-procs_hstore f.processes fits ∙ kept,
          remove-get db table app.id f.release_id w after gone,
        )
    formation_added-Moves app release f not_found before w after other fits kept e h =
        absurd (ground arith)
    formation_added-Moves app release f failure before w after other fits kept e h =
        absurd (ground arith)

    set_app_release_of_one :
        (releases : Text → W → Option Release × W) (set_release : Text → Text → W → W) (app : App)
        (id : Text) (release : Release) (f : Formation) (w w1 w2 : W)
        → releases id w ≡ (some release, w1)
        → list db app.id (set_release app.id release.id w1) ≡ (some (f ∷ []), w2)
        → f.release_id ≢ release.id
        → set_app_release db releases set_release app id w ≡ move_formation db app release f w2
    unfolding set_app_release
    set_app_release_of_one releases set_release app id release f w w1 w2 found listed other =
        ground (arith, eq_iff f.release_id release.id)

    -- Over a table that keeps what is written, if an application has one formation, of another
    -- release, and setting the release answers 200, then the application has a formation of the new
    -- release with the same counts, and none of the old one. The new release's identifier is one
    -- without dashes, as the repository of releases returns it.
    pub set_app_release-Moves :
        (releases : Text → W → Option Release × W) (set_release : Text → Text → W → W) (app : App)
        (id : Text) (release : Release) (f : Formation) (w w1 w2 after : W)
        → releases id w ≡ (some release, w1)
        → Lacks b'-' release.id
        → list db app.id (set_release app.id release.id w1) ≡ (some (f ∷ []), w2)
        → f.release_id ≢ release.id
        → set_app_release db releases set_release app id w ≡ (json 200 (some release), after)
        → Moves app release f after
    unfolding move_formation
    set_app_release-Moves releases set_release app id release f w w1 w2 after found clean listed
          other h =
        let (dashless, fits, kept) =
          list_one app.id (set_release app.id release.id w1) w2 f listed in
        formation_added-Moves app release f (add db (moved_formation db app release f) w2).0 w2
          (add db (moved_formation db app release f) w2).1 after
          (clean_uuid_differs f.release_id release.id dashless clean other) fits kept refl
          (sym (
              set_app_release_of_one releases set_release app id release f w w1 w2 found listed
                other)
            ∙ h)
