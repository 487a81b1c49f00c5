-- ===== src/Handlers.antt =====
-- controller.go: the handlers of formations and of an application's release. What the middleware
-- looked up, and the repositories of applications and releases, are arguments.
pub mod Refusing
pub mod Moving
use flynn_controller.Prelude.{
  Bool, true, false, Option, none, some, List, [], ◌∷◌, Text, text_eq, list_eqb, nat_eqb, ◌==◌,
  ◌&&◌, ◌||◌, if◌then◌else◌, ℤ, pos, negsuc,
}
use flynn_controller.Prelude.Map
use flynn_controller.Prelude.Map.{Map}
use flynn_controller.Types.{App, Release, Formation, ProcessType}
use flynn_controller.Sql.{Result, ok, not_found, failure}
use flynn_controller.FormationRepo.{Statements, add, get, list, remove}
use flynn_controller.Http.{Response, json, header}

-- formation.Processes[typ]
unfoldable pub count_of : Text → Map Text ℤ → ℤ
unfolding Map.get list_eqb
count_of name processes = elim (Map.get name processes) [ none ↦ pos 0 | some n ↦ n ]

abbrev pub is_zero : ℤ → Bool
is_zero (pos n) = nat_eqb n 0
is_zero (negsuc n) = false

unfoldable pub any_unset : Map Text ProcessType → Map Text ℤ → Bool
unfolding count_of
any_unset [] processes = false
any_unset ((name, t) ∷ types) processes =
    is_zero (count_of name processes) || any_unset types processes

abbrev pub answer_of : {A : Type 0} → Result A → Response A
answer_of (ok a) = json 200 (some a)
answer_of not_found = json 500 none
answer_of failure = json 500 none

module _ {W : Type 0} (db : Statements W) where
  unfoldable pub put_formation : Formation → App → Release → W → Response Formation × W
  unfolding any_unset add
  put_formation formation app release w =
      let f = record formation { app_id = app.id; release_id = release.id } in
      let (added, w1) = add db f w in
      if app.protected && any_unset release.processes f.processes
      then (json 400 none, w1)
      else (answer_of added, w1)

  -- getFormationMiddleware before a handler
  unfoldable pub with_formation :
      {A : Type 0} → (Formation → W → Response A × W) → App → Text → W → Response A × W
  unfolding get
  with_formation next app release_id w =
      let (found, w1) = get db app.id release_id w in
      elim found [ ok f ↦ next f w1 | not_found ↦ (header 404, w1) | failure ↦ (header 500, w1) ]

  unfoldable pub get_formation : Formation → W → Response Formation × W
  get_formation f w = (json 200 (some f), w)

  unfoldable pub delete_formation : Formation → W → Response (Unit {0}) × W
  unfolding remove
  delete_formation f w =
      let (failed, w1) = remove db f.app_id f.release_id w in
      if failed then (header 500, w1) else (header 200, w1)

  unfoldable pub list_formations : App → W → Response (List Formation) × W
  unfolding list
  list_formations app w =
      let (fs, w1) = list db app.id w in
      elim fs [ none ↦ (json 500 none, w1) | some l ↦ (json 200 (some l), w1) ]

  abbrev pub moved_formation : App → Release → Formation → Formation
  moved_formation app release f = record {
    app_id = app.id;
    release_id = release.id;
    processes = f.processes;
    created_at = none;
    updated_at = none;
  }

  -- what follows formations.Add in setAppRelease
  unfoldable pub formation_added :
      App → Release → Formation → Result Formation × W → Response Release × W
  unfolding remove
  formation_added app release f (ok g, w) =
      let (failed, w1) = remove db app.id f.release_id w in
      if failed then (json 500 none, w1) else (json 200 (some release), w1)
  formation_added app release f (not_found, w) = (json 500 none, w)
  formation_added app release f (failure, w) = (json 500 none, w)

  -- the branch of setAppRelease for one formation of another release
  unfoldable pub move_formation : App → Release → Formation → W → Response Release × W
  unfolding add formation_added
  move_formation app release f w =
      formation_added app release f (add db (moved_formation app release f) w)

  unfoldable pub release_listed : App → Release → Option (List Formation) × W → Response Release × W
  unfolding move_formation list_eqb
  release_listed app release (none, w) = (json 500 none, w)
  release_listed app release (some (f ∷ []), w) =
      if f.release_id == release.id
      then (json 200 (some release), w)
      else move_formation app release f w
  release_listed app release (some fs, w) = (json 200 (some release), w)

  -- The error of SetRelease is dropped, so only the world that it leaves is given.
  unfoldable pub set_app_release :
      (Text → W → Option Release × W)
      → (Text → Text → W → W)
      → App
      → Text
      → W
      → Response Release × W
  unfolding release_listed list
  set_app_release releases set_release app id w =
      let (found, w1) = releases id w in
      elim found [
        | none ↦ (json 500 none, w1)
        | some release ↦
            release_listed app release (list db app.id (set_release app.id release.id w1))
      ]

  -- getAppRelease, with apps.GetRelease as an argument
  unfoldable pub get_app_release : (Text → W → Result Release × W) → App → W → Response Release × W
  get_app_release current app w =
      let (found, w1) = current app.id w in
      elim found [
        | ok release ↦ (json 200 (some release), w1)
        | not_found ↦ (header 404, w1)
        | failure ↦ (header 500, w1)
      ]
