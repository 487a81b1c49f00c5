-- ===== src/Tests/Statements.antt =====
-- Two calls that both miss the cache.
use flynn_controller.Prelude.{
  ℕ, ◌≡◌, ◌⊎◌, refl, [], ◌∷◌, some, none, suc, Option, Bool, false, subst, Text, codes, text_eq,
  nat_eq, list_eqb, All,
}
use flynn_controller.Prelude.Map
use flynn_controller.Statements.{
  Cache, empty_cache, prepare, fill, Reaches, start, after, prepares, fills,
}
use flynn_controller.Statements.Shared.{returned_shared}
use flynn_controller.Statements.Calls.{Preparing, prepare_call, AreFailed, AreRun, calls-AreRun}
use flynn_controller.Sql.{Sql, bad_uuid}

abbrev query : Text
query = codes "SELECT"

abbrev both_missed : Cache
both_missed = prepare query 2 (prepare query 1 empty_cache)

missed : Reaches both_missed
unfolding Map.get prepare
missed = after (after start (prepares query 1 refl)) (prepares query 2 refl)

-- the second to prepare is the first to fill the cache
abbrev raced : Cache
raced = record {
  cached = (query, 2) ∷ [];
  opened = (2, query) ∷ [];
  pending = [];
  returned = (query, 2) ∷ (query, 2) ∷ [];
}

raced-Reaches : Reaches raced
unfolding prepare fill Map.get Map.put Map.delete list_eqb
raced-Reaches = after (after missed (fills query 2 refl)) (fills query 1 refl)

returned_shared_example :
    All
      (λ (r : Text × ℕ).
        (Map.get r.0 raced.cached ≡ some r.1) × (Map.get r.1 raced.opened ≡ some r.0))
      raced.returned
returned_shared_example = returned_shared raced raced-Reaches

-- The world is the next statement.
abbrev give : Preparing ℕ
give q w = (some w, suc w)

fresh : (stmt : ℕ) → (give (codes "INSERT") 7).0 ≡ some stmt → Map.get stmt raced.opened ≡ none
unfolding Map.get
fresh stmt h = let same : 7 ≡ stmt = cc (h) in subst (λ s. Map.get s raced.opened ≡ none) same refl

abbrev rows : ℕ → ℕ → Option ℕ × ℕ
rows stmt w = (some stmt, w)

abbrev one : ℕ → ℕ → Sql ℕ × ℕ
one stmt w = (bad_uuid, w)

abbrev run : ℕ → ℕ → Bool × ℕ
run stmt w = (false, w)

calls-AreRun_example :
    AreFailed give rows one run
      (codes "INSERT")
      raced
      7
      (prepare_call give (codes "INSERT") raced 7)
    ⊎ AreRun give rows one run (codes "INSERT") raced 7 (prepare_call give (codes "INSERT") raced 7)
calls-AreRun_example = calls-AreRun give rows one run (codes "INSERT") raced 7 raced-Reaches fresh
