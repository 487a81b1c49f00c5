-- ===== src/Crud.antt =====
-- crud.go: the handlers that every kind of thing gets, over its repository. A repository without
-- Remove or Update has `none` for it, and then the route is not there. The decoders of the
-- requests' JSON bodies are arguments.
pub mod Stores
use flynn_controller.Prelude.{Bool, true, false, Option, none, some, List, Text, if◌then◌else◌}
use flynn_controller.Prelude.Map.{Map}
use flynn_controller.Sql.{Result, ok, not_found, failure}
use flynn_controller.Http.{Response, json, header, silent, answer}

-- a value of a JSON object, as far as a repository tells them apart
pub data Value : Type 0 where
  boolean : Bool → Value
  other : Value

-- Repository, Remover and Updater. `add` answers the thing as the call left it; `none` and a true
-- flag are errors.
pub record Repository (W A : Type 0) : Type 0 where
  pub add : A → W → Option A × W
  pub get : Text → W → Result A × W
  pub list : W → Option (List A) × W
  pub remover : Option (Text → W → Bool × W)
  pub updater : Option (Text → Map Text Value → W → Option A × W)

module _ {W A : Type 0} (repo : Repository W A) where
  -- POST /things: a body that does not decode is not answered
  unfoldable pub post_thing : (Text → Option A) → Text → W → Response A × W
  post_thing decode body w = elim (decode body) [
    | none ↦ (silent, w)
    | some thing ↦ let (added, w1) = repo.add thing w in (answer added, w1)
  ]

  -- lookup, before a handler
  unfoldable pub lookup : {B : Type 0} → (A → W → Response B × W) → Result A × W → Response B × W
  lookup next (ok thing, w) = next thing w
  lookup next (not_found, w) = (header 404, w)
  lookup next (failure, w) = (header 500, w)

  -- GET /things/:id
  unfoldable pub get_thing : Text → W → Response A × W
  unfolding lookup
  get_thing id w = lookup (λ thing w1. (json 200 (some thing), w1)) (repo.get id w)

  -- GET /things
  unfoldable pub list_things : W → Response (List A) × W
  list_things w = let (things, w1) = repo.list w in (answer things, w1)

  -- the handler of DELETE behind the lookup
  unfoldable pub remove_thing : (Text → W → Bool × W) → Text → W → Response (Unit {0}) × W
  remove_thing remove id w =
      let (failed, w1) = remove id w in if failed then (header 500, w1) else (silent, w1)

  unfoldable pub delete_by :
      Text → W → Option (Text → W → Bool × W) → Option (Response (Unit {0}) × W)
  unfolding lookup remove_thing
  delete_by id w none = none
  delete_by id w (some remove) =
      some (lookup (λ thing w1. remove_thing remove id w1) (repo.get id w))

  -- DELETE /things/:id; `none` where there is no such route
  unfoldable pub delete_thing : Text → W → Option (Response (Unit {0}) × W)
  unfolding delete_by
  delete_thing id w = delete_by id w repo.remover

  -- POST /things/:id; `none` where there is no such route
  unfoldable pub update_thing :
      (Text → Option (Map Text Value)) → Text → Text → W → Option (Response A × W)
  update_thing decode id body w = elim repo.updater [
    | none ↦ none
    | some update ↦ some (elim (decode body) [
      | none ↦ (json 400 none, w)
      | some fields ↦ let (updated, w1) = update id fields w in (answer updated, w1)
    ])
  ]
