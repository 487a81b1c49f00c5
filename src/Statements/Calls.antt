-- ===== src/Statements/Calls.antt =====
-- db.go, Query, Exec and QueryRow: a call without another call in between, over the cache of
-- prepared statements. What the database does with a statement is an argument.
use flynn_controller.Prelude.{
  ℕ, ◌≡◌, refl, Bool, true, Option, none, some, List, ◌∷◌, Text, text_eq, nat_eq, inl, inr, All,
  ◌⊎◌, Option-cases, subst, arith,
}
use flynn_controller.Prelude.Map
use flynn_controller.Prelude.Map.{Map, get-put_self}
use flynn_controller.Sql.{Sql, failed, fix_row_err}
use flynn_controller.Statements.{Cache, hit, prepare, fill, hits, prepares, fills, Reaches, after}
use flynn_controller.Statements.Shared.{returned_shared}

-- db.DB.Prepare
abbrev pub Preparing : Type 0 → Type 0
Preparing W = Text → W → Option ℕ × W

-- what is cached already, and else the statement of the call
abbrev chosen : ℕ → Option ℕ → ℕ
chosen stmt none = stmt
chosen stmt (some previous) = previous

-- from the answer of Prepare on
unfoldable pub prepared : {W : Type 0} → Text → Cache → Option ℕ × W → Option ℕ × Cache × W
unfolding prepare fill
prepared query db (none, w) = (none, db, w)
prepared query db (some stmt, w) =
    let db1 = prepare query stmt db in
    let cached = Map.get query db1.cached in
    (some (chosen stmt cached), fill query stmt cached db1, w)

-- DB.prepare; `none` is an error
unfoldable pub prepare_call : {W : Type 0} → Preparing W → Text → Cache → W → Option ℕ × Cache × W
unfolding prepared hit
prepare_call give query db w = elim (Map.get query db.cached) [
  | some stmt ↦ (some stmt, hit query stmt db, w)
  | none ↦ prepared query db (give query w)
]

module _ {W A : Type 0} (give : Preparing W) where
  -- DB.Query, with stmt.Query of the arguments; `none` is an error
  unfoldable pub query_call : (ℕ → W → Option A × W) → Text → Cache → W → Option A × Cache × W
  unfolding prepare_call
  query_call run query db w =
      let (stmt, db1, w1) = prepare_call give query db w in
      elim stmt [
        | none ↦ (none, db1, w1)
        | some s ↦ let (answer, w2) = run s w1 in (answer, db1, w2)
      ]

  -- DB.QueryRow and Scan of its row: an errRow fails, and another row is a rowErrFixer
  unfoldable pub query_row_call : (ℕ → W → Sql A × W) → Text → Cache → W → Sql A × Cache × W
  unfolding prepare_call fix_row_err
  query_row_call run query db w =
      let (stmt, db1, w1) = prepare_call give query db w in
      elim stmt [
        | none ↦ (failed, db1, w1)
        | some s ↦ let (answer, w2) = run s w1 in (fix_row_err answer, db1, w2)
      ]

-- DB.Exec; a true flag is an error
unfoldable pub exec_call :
    {W : Type 0} → Preparing W → (ℕ → W → Bool × W) → Text → Cache → W → Bool × Cache × W
unfolding prepare_call
exec_call give run query db w =
    let (stmt, db1, w1) = prepare_call give query db w in
    elim stmt [ none ↦ (true, db1, w1) | some s ↦ let (answer, w2) = run s w1 in (answer, db1, w2) ]

returned-fill :
    (query : Text) (stmt : ℕ) (cached : Option ℕ) (db : Cache)
    → (fill query stmt cached db).returned ≡ (query, chosen stmt cached) ∷ db.returned
unfolding fill
returned-fill query stmt none db = refl
returned-fill query stmt (some previous) db = refl

module _ {W : Type 0} (give : Preparing W) where
  -- The call is some steps of the cache, and its statement is the one that it returned last.
  pub record IsCalled (query : Text) (r : Option ℕ × Cache × W) : Type 0 where
    pub reached : Reaches r.1
    pub known : (stmt : ℕ) → r.0 ≡ some stmt → Map.get query r.1.cached ≡ some stmt
    pub opened : (stmt : ℕ) → r.0 ≡ some stmt → Map.get stmt r.1.opened ≡ some query

  IsCalled-last :
      (query : Text) (stmt : ℕ) (db : Cache) (w : W) {l : List (Text × ℕ)}
      → Reaches db
      → db.returned ≡ (query, stmt) ∷ l
      → IsCalled query (some stmt, db, w)
  IsCalled-last query stmt db w reached last =
      let (cached, open_for) =
        (subst
          (All (λ (r : Text × ℕ).
            (Map.get r.0 db.cached ≡ some r.1) × (Map.get r.1 db.opened ≡ some r.0)))
          last (returned_shared db reached)).0 in
      record {
        reached = reached;
        known = λ s h. subst (λ x. Map.get query db.cached ≡ some x) (cc (h)) cached;
        opened = λ s h. subst (λ x. Map.get x db.opened ≡ some query) (cc (h)) open_for;
      }

  prepared-IsCalled :
      (query : Text) (db : Cache) (r : Option ℕ × W)
      → Reaches db
      → Map.get query db.cached ≡ none
      → ((stmt : ℕ) → r.0 ≡ some stmt → Map.get stmt db.opened ≡ none)
      → IsCalled query (prepared query db r)
  unfolding prepared prepare
  prepared-IsCalled query db (none, w) reached missed fresh = record {
    reached = reached;
    known = λ stmt h. cc;
    opened = λ stmt h. cc;
  }
  prepared-IsCalled query db (some stmt, w) reached missed fresh =
      let db1 = prepare query stmt db in
      let reached1 = after reached (prepares query stmt (fresh stmt refl)) in
      let mine : Map.get stmt db1.pending ≡ some query = get-put_self stmt query db.pending in
      let reached2 = after reached1 (fills query stmt mine) in
      IsCalled-last query (chosen stmt (Map.get query db1.cached)) _ w reached2
        (returned-fill query stmt (Map.get query db1.cached) db1)

  prepare_call-IsCalled :
      (query : Text) (db : Cache) (w : W)
      → Reaches db
      → ((stmt : ℕ) → (give query w).0 ≡ some stmt → Map.get stmt db.opened ≡ none)
      → IsCalled query (prepare_call give query db w)
  unfolding prepare_call hit
  prepare_call-IsCalled query db w reached fresh = elim (Option-cases (Map.get query db.cached)) [
    | inl missed ↦
        rw (missed, prepare_call) (prepared-IsCalled query db (give query w) reached missed fresh)
    | inr (stmt, cached) ↦
        rw (cached, prepare_call)
          (IsCalled-last query stmt (hit query stmt db) w (after reached (hits query stmt cached))
            refl)
  ]

-- A call without a statement missed the cache, and was refused one.
prepare_call_refused :
    {W : Type 0} (give : Preparing W) (query : Text) (db : Cache) (w : W)
    → (prepare_call give query db w).0 ≡ none
    → (Map.get query db.cached ≡ none)
      × ((give query w).0 ≡ none)
      × ((prepare_call give query db w).1 ≡ db)
unfolding prepare_call prepared
prepare_call_refused give query db w missing = elim (Option-cases (Map.get query db.cached)) [
  | inl missed ↦ elim (Option-cases (give query w).0) [
    | inl refused ↦ rw (missed, prepare_call) (rw (refused, prepared) (refl, refl, refl))
    | inr (stmt, given) ↦ absurd (ground arith)
  ]
  | inr (stmt, cached) ↦ absurd (ground arith)
]

module _ {W A B : Type 0} (give : Preparing W) (rows : ℕ → W → Option A × W)
    (row : ℕ → W → Sql B × W) (run : ℕ → W → Bool × W) where
  -- The three calls with one statement: what they answer, and that it is open for the query.
  pub record AreRun (query : Text) (db : Cache) (w : W) (called : Option ℕ × Cache × W)
      : Type 0 where
    pub stmt : ℕ
    pub reached : Reaches called.1
    pub opened : Map.get stmt called.1.opened ≡ some query
    pub queries :
        query_call give rows query db w ≡ ((rows stmt called.2).0, called.1, (rows stmt called.2).1)
    pub reads :
        query_row_call give row query db w
        ≡ (fix_row_err (row stmt called.2).0, called.1, (row stmt called.2).1)
    pub executes :
        exec_call give run query db w ≡ ((run stmt called.2).0, called.1, (run stmt called.2).1)

  -- The query is not cached, the database refuses to prepare it, and all three fail and leave the
  -- cache as it was.
  pub record AreFailed (query : Text) (db : Cache) (w : W) (called : Option ℕ × Cache × W)
      : Type 0 where
    pub missed : Map.get query db.cached ≡ none
    pub refused : (give query w).0 ≡ none
    pub kept : called.1 ≡ db
    pub queries : query_call give rows query db w ≡ (none, called.1, called.2)
    pub reads : query_row_call give row query db w ≡ (failed, called.1, called.2)
    pub executes : exec_call give run query db w ≡ (true, called.1, called.2)

  -- After any interleaving of calls, where the database gives statements that are not in use, a
  -- Query, a QueryRow or an Exec runs a statement that is open for its query, and leaves the cache
  -- as some interleaving does, or else it fails, where the query is not cached and the database
  -- gave no statement for it, and leaves the cache as it was.
  pub calls-AreRun :
      (query : Text) (db : Cache) (w : W)
      → Reaches db
      → ((stmt : ℕ) → (give query w).0 ≡ some stmt → Map.get stmt db.opened ≡ none)
      → AreFailed query db w (prepare_call give query db w)
        ⊎ AreRun query db w (prepare_call give query db w)
  unfolding query_call query_row_call exec_call
  calls-AreRun query db w reached fresh =
      let called = prepare_call-IsCalled give query db w reached fresh in
      elim (Option-cases (prepare_call give query db w).0) [
        | inl missing ↦ inl (record {
          missed = (prepare_call_refused give query db w missing).0;
          refused = (prepare_call_refused give query db w missing).1;
          kept = (prepare_call_refused give query db w missing).2;
          queries = rw (missing, query_call) refl;
          reads = rw (missing, query_row_call) refl;
          executes = rw (missing, exec_call) refl;
        })
        | inr (s, found) ↦ inr (record {
          stmt = s;
          reached = called.reached;
          opened = called.opened s found;
          queries = rw (found, query_call) refl;
          reads = rw (found, query_row_call) refl;
          executes = rw (found, exec_call) refl;
        })
      ]
