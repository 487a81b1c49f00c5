-- ===== src/Statements.antt =====
-- db.go, DB.prepare: the cache of prepared statements, which calls share. A statement is a number.
-- The two looks at the cache hold the lock, and are one step each; between them, a call that missed
-- prepares its own statement without the lock.
pub mod Shared
pub mod Calls
use flynn_controller.Prelude.{
  ℕ, ◌≡◌, Option, none, some, List, [], ◌∷◌, Text, text_eq, nat_eq, list_eqb,
}
use flynn_controller.Prelude.Map
use flynn_controller.Prelude.Map.{Map}

pub record Cache : Type 0 where
  -- db.stmts
  pub cached : Map Text ℕ
  -- the statements that the database holds open, and their queries
  pub opened : Map ℕ Text
  -- what calls that missed have prepared, before their second look
  pub pending : Map ℕ Text
  -- what calls have returned, with the query that they asked for
  pub returned : List (Text × ℕ)

-- NewDB
abbrev pub empty_cache : Cache
empty_cache = record { cached = []; opened = []; pending = []; returned = [] }

-- the fast path
unfoldable pub hit : Text → ℕ → Cache → Cache
hit query stmt db = record db { returned = (query, stmt) ∷ db.returned }

-- db.DB.Prepare answers a statement
unfoldable pub prepare : Text → ℕ → Cache → Cache
unfolding Map.put
prepare query stmt db = record db {
  opened = Map.put stmt query db.opened;
  pending = Map.put stmt query db.pending;
}

-- the second look, with the statement of the call, and what is cached for its query
unfoldable pub fill : Text → ℕ → Option ℕ → Cache → Cache
unfolding Map.put Map.delete
fill query stmt (some previous) db = record db {
  opened = Map.delete stmt db.opened;
  pending = Map.delete stmt db.pending;
  returned = (query, previous) ∷ db.returned;
}
fill query stmt none db = record db {
  cached = Map.put query stmt db.cached;
  pending = Map.delete stmt db.pending;
  returned = (query, stmt) ∷ db.returned;
}

-- A step of some call.
pub data Step (db : Cache) : Cache → Type 0 where
  hits :
      (query : Text) (stmt : ℕ) → Map.get query db.cached ≡ some stmt → Step db (hit query stmt db)
  -- the database gives a statement that is not in use
  prepares :
      (query : Text) (stmt : ℕ) → Map.get stmt db.opened ≡ none → Step db (prepare query stmt db)
  fills :
      (query : Text) (stmt : ℕ)
      → Map.get stmt db.pending ≡ some query
      → Step db (fill query stmt (Map.get query db.cached) db)

-- the states that some interleaving of calls reaches
pub data Reaches : Cache → Type 0 where
  start : Reaches empty_cache
  after : {db next : Cache} → Reaches db → Step db next → Reaches next
