-- ===== src/FormationRepo/Updated.antt =====
-- formation.go, sendUpdatedSince: what a new subscription is sent of the formations that changed.
use flynn_controller.Prelude.{
  suc, ◌<◌, ◌≡◌, ◌⊎◌, refl, sym, ap, Bool, true, false, Option, none, some, List, [], ◌∷◌, ◌++◌,
  arith, length, All, inl, inr, Option-cases, subst,
}
use flynn_controller.Types.{App, Release, Artifact, Formation, ExpandedFormation}
use flynn_controller.Sql.{Sql, Result, ok, not_found, failure}
use flynn_controller.FormationRepo.{Row, scan_formation}
use flynn_controller.FormationRepo.Publishing.{
  Lookups, sentinel, value, artifact_read, release_read, app_read, expand_formation, send_rows,
}

-- The sentinel, behind a loop that was not ended by an error; a true flag is an error.
unfoldable pub sentinel_after :
    {W : Type 0} → Bool → List ExpandedFormation × Bool × W → List ExpandedFormation × Bool × W
sentinel_after rows_error (sent, true, w) = (sent, true, w)
sentinel_after rows_error (sent, false, w) = (sent ++ sentinel ∷ [], rows_error, w)

-- from the answer of the query on: the rows, and true where rows.Err() is an error
unfoldable pub send_found :
    {W : Type 0}
    → Lookups W
    → Option (List (Sql Row) × Bool) × W
    → List ExpandedFormation × Bool × W
unfolding send_rows sentinel_after
send_found lookups (none, w) = ([], true, w)
send_found lookups (some (rows, rows_error), w) =
    sentinel_after rows_error (send_rows lookups rows w)

-- sendUpdatedSince: what is sent, and true for an error. `query` is the SELECT of the formations
-- that were updated since.
unfoldable pub send_updated_since :
    {W T : Type 0}
    → Lookups W
    → (T → W → Option (List (Sql Row) × Bool) × W)
    → T
    → W
    → List ExpandedFormation × Bool × W
unfolding send_found
send_updated_since lookups query since w = send_found lookups (query since w)

-- not the sentinel
abbrev pub HasApp : ExpandedFormation → Type 0
HasApp e = (app : App) × (e.app ≡ some app)

abbrev Shows : Option ExpandedFormation → Type 0
Shows none = Unit
Shows (some e) = HasApp e

module _ {W : Type 0} (lookups : Lookups W) where
  artifact_read-Shows :
      (f : Formation) (app : App) (release : Release) (r : Result Artifact × W)
      → Shows (artifact_read lookups f app release r).0
  unfolding artifact_read
  artifact_read-Shows f app release (ok artifact, w) = (app, refl)
  artifact_read-Shows f app release (not_found, w) = tt
  artifact_read-Shows f app release (failure, w) = tt

  release_read-Shows :
      (f : Formation) (app : App) (r : Result Release × W) → Shows (release_read lookups f app r).0
  unfolding release_read
  release_read-Shows f app (ok release, w) =
      artifact_read-Shows f app release (lookups.artifact release.artifact_id w)
  release_read-Shows f app (not_found, w) = tt
  release_read-Shows f app (failure, w) = tt

  app_read-Shows : (f : Formation) (r : Result App × W) → Shows (app_read lookups f r).0
  unfolding app_read
  app_read-Shows f (ok app, w) = release_read-Shows f app (lookups.release f.release_id w)
  app_read-Shows f (not_found, w) = tt
  app_read-Shows f (failure, w) = tt

  -- All rows are sent, or an error stopped the loop before the last.
  abbrev IsSent : List (Sql Row) → List ExpandedFormation × Bool × W → Type 0
  IsSent rows (sent, stopped, w) =
      All HasApp sent
      × (((stopped ≡ false) × (length sent ≡ length rows))
          ⊎ ((stopped ≡ true) × (length sent < length rows)))

  send_rows-IsSent : (rows : List (Sql Row)) (w : W) → IsSent rows (send_rows lookups rows w)
  unfolding send_rows expand_formation
  send_rows-IsSent [] w = (tt, inl (refl, refl))
  send_rows-IsSent (r ∷ rows) w = elim (Option-cases (value (scan_formation r))) [
    | inl bad ↦ rw (bad, send_rows) (tt, inr (refl, omega arith))
    | inr (f, read) ↦ elim (Option-cases (expand_formation lookups f w).0) [
      | inl missing ↦ rw (read, send_rows) (rw (missing) (tt, inr (refl, omega arith)))
      | inr (e, shown) ↦
          let (all, rest) = send_rows-IsSent rows (expand_formation lookups f w).1 in
          let has : HasApp e = subst Shows shown (app_read-Shows f (lookups.app f.app_id w)) in
          rw (read, send_rows)
            (rw (shown) (
              (has, all),
              elim rest [
                | inl (ended, every) ↦ inl (ended, ap suc every)
                | inr (broke, fewer) ↦ inr (broke, omega (arith, fewer))
              ],
            ))
    ]
  ]

-- What a subscription gets for the rows of the query: a formation for each and then the sentinel,
-- or fewer formations, no sentinel and an error.
pub data IsAnswered {W : Type 0} (rows : List (Sql Row)) (rows_error : Bool)
    : List ExpandedFormation × Bool × W → Type 0 where
  complete :
      (sent : List ExpandedFormation) (w : W)
      → All HasApp sent
      → length sent ≡ length rows
      → IsAnswered rows rows_error (sent ++ sentinel ∷ [], rows_error, w)
  stopped :
      (sent : List ExpandedFormation) (w : W)
      → All HasApp sent
      → length sent < length rows
      → IsAnswered rows rows_error (sent, true, w)

sentinel_after-IsAnswered :
    {W : Type 0} (lookups : Lookups W) (rows : List (Sql Row)) (rows_error : Bool)
    (r : List ExpandedFormation × Bool × W)
    → IsSent lookups rows r
    → IsAnswered rows rows_error (sentinel_after rows_error r)
unfolding sentinel_after
sentinel_after-IsAnswered lookups rows rows_error (sent, true, w) (all, inl (e, every)) = cc
sentinel_after-IsAnswered lookups rows rows_error (sent, true, w) (all, inr (e, fewer)) =
    stopped sent w all fewer
sentinel_after-IsAnswered lookups rows rows_error (sent, false, w) (all, inl (e, every)) =
    complete sent w all every
sentinel_after-IsAnswered lookups rows rows_error (sent, false, w) (all, inr (e, fewer)) = cc

-- When the query answers, a new subscription is sent one formation for each row and then the
-- sentinel, once and as the last; or an error is returned before all rows are sent, and there is no
-- sentinel.
pub send_updated_since-IsAnswered :
    {W T : Type 0} (lookups : Lookups W) (query : T → W → Option (List (Sql Row) × Bool) × W)
    (since : T) (rows : List (Sql Row)) (rows_error : Bool) (w w1 : W)
    → query since w ≡ (some (rows, rows_error), w1)
    → IsAnswered rows rows_error (send_updated_since lookups query since w)
unfolding send_updated_since send_found
send_updated_since-IsAnswered lookups query since rows rows_error w w1 found =
    subst (IsAnswered rows rows_error) (sym (ap (send_found lookups) found)) (
      sentinel_after-IsAnswered lookups rows rows_error (send_rows lookups rows w1)
        (send_rows-IsSent lookups rows w1))
