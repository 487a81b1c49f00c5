-- ===== src/Statements/Shared.antt =====
-- The statements that calls of DB.prepare return, and those that stay open.
use flynn_controller.Prelude.{
  ℕ, ◌≡◌, ◌≢◌, ◌⊎◌, sym, ◌∙◌, none, some, List, [], ◌∷◌, Text, text_eq, nat_eq, eq_iff, eq_cases,
  Comparable, arith, subst, inl, inr, All, Option-cases,
}
use flynn_controller.Prelude.Map
use flynn_controller.Prelude.Map.{
  Map, get-put, get-delete, get-put_self, get-put_ne, get-delete_ne, get-delete_self, get-empty,
}
use flynn_controller.Statements.{
  Cache, empty_cache, hit, prepare, fill, Step, hits, prepares, fills, Reaches, start, after,
}

record IsSound (db : Cache) : Type 0 where
  cached_open : (q : Text) (s : ℕ) → Map.get q db.cached ≡ some s → Map.get s db.opened ≡ some q
  pending_open : (q : Text) (s : ℕ) → Map.get s db.pending ≡ some q → Map.get s db.opened ≡ some q
  pending_own : (q : Text) (s : ℕ) → Map.get s db.pending ≡ some q → Map.get q db.cached ≢ some s
  held :
      (q : Text) (s : ℕ)
      → Map.get s db.opened ≡ some q
      → (Map.get q db.cached ≡ some s) ⊎ (Map.get s db.pending ≡ some q)
  answered : All (λ (r : Text × ℕ). Map.get r.0 db.cached ≡ some r.1) db.returned

start-IsSound : IsSound empty_cache
start-IsSound = record {
  cached_open = λ q s h. absurd (no_entry q s h);
  pending_open = λ q s h. absurd (no_entry s q h);
  pending_own = λ q s h e. no_entry s q h;
  held = λ q s h. absurd (no_entry s q h);
  answered = tt;
}
  where
    no_entry : {K V : Type 0} ⦃e : Comparable K⦄ (k : K) (v : V) → Map.get k [] ≢ some v
    no_entry k v h = cc (get-empty k, h)

hit-IsSound :
    (q : Text) (s : ℕ) (db : Cache)
    → Map.get q db.cached ≡ some s
    → IsSound db
    → IsSound (hit q s db)
unfolding hit
hit-IsSound q s db e h = record {
  cached_open = h.cached_open;
  pending_open = h.pending_open;
  pending_own = h.pending_own;
  held = h.held;
  answered = (e, h.answered);
}

prepare-IsSound :
    (q : Text) (s : ℕ) (db : Cache)
    → Map.get s db.opened ≡ none
    → IsSound db
    → IsSound (prepare q s db)
unfolding prepare
prepare-IsSound q s db fresh h = record {
  cached_open = λ p t e. ground (arith, get-put s t q db.opened, eq_iff s t, h.cached_open p t e);
  pending_open = λ p t e. elim (eq_cases s t) [
    | inl same ↦ ground (arith, get-put s t q db.opened, get-put s t q db.pending, eq_iff s t)
    | inr ne ↦
        get-put_ne s t q db.opened ne
        ∙ h.pending_open p t (sym (get-put_ne s t q db.pending ne) ∙ e)
  ];
  pending_own = λ p t e f. elim (eq_cases s t) [
    | inl same ↦ cc (h.cached_open p t f, same, fresh)
    | inr ne ↦ h.pending_own p t (sym (get-put_ne s t q db.pending ne) ∙ e) f
  ];
  held = λ p t e. elim (eq_cases s t) [
    | inl same ↦ inr (ground (arith, get-put s t q db.opened, get-put s t q db.pending, eq_iff s t))
    | inr ne ↦ elim (h.held p t (sym (get-put_ne s t q db.opened ne) ∙ e)) [
      | inl kept ↦ inl kept
      | inr mine ↦ inr (get-put_ne s t q db.pending ne ∙ mine)
    ]
  ];
  answered = h.answered;
}

-- The call that lost closes its statement.
close-IsSound :
    (q : Text) (s previous : ℕ) (db : Cache)
    → Map.get s db.pending ≡ some q
    → Map.get q db.cached ≡ some previous
    → IsSound db
    → IsSound (fill q s (some previous) db)
unfolding fill
close-IsSound q s previous db mine e h = record {
  cached_open = λ p t f. elim (eq_cases s t) [
    | inl same ↦
        absurd (h.pending_own q s mine (cc (h.cached_open p t f, h.pending_open q s mine, same, f)))
    | inr ne ↦ get-delete_ne s t db.opened ne ∙ h.cached_open p t f
  ];
  pending_open = λ p t f. elim (eq_cases s t) [
    | inl same ↦ absurd (cc (get-delete_self s db.pending, same, f))
    | inr ne ↦
        get-delete_ne s t db.opened ne
        ∙ h.pending_open p t (sym (get-delete_ne s t db.pending ne) ∙ f)
  ];
  pending_own = λ p t f. elim (eq_cases s t) [
    | inl same ↦ absurd (cc (get-delete_self s db.pending, same, f))
    | inr ne ↦ h.pending_own p t (sym (get-delete_ne s t db.pending ne) ∙ f)
  ];
  held = λ p t f. elim (eq_cases s t) [
    | inl same ↦ absurd (cc (get-delete_self s db.opened, same, f))
    | inr ne ↦ elim (h.held p t (sym (get-delete_ne s t db.opened ne) ∙ f)) [
      | inl kept ↦ inl kept
      | inr own ↦ inr (get-delete_ne s t db.pending ne ∙ own)
    ]
  ];
  answered = (e, h.answered);
}

kept_answers :
    (q : Text) (s : ℕ) (cached : Map Text ℕ) (returned : List (Text × ℕ))
    → Map.get q cached ≡ none
    → All (λ (r : Text × ℕ). Map.get r.0 cached ≡ some r.1) returned
    → All (λ (r : Text × ℕ). Map.get r.0 (Map.put q s cached) ≡ some r.1) returned
kept_answers q s cached [] e h = tt
kept_answers q s cached ((p, t) ∷ returned) e (f, h) =
    (get-put_ne q p s cached (λ same. cc) ∙ f, kept_answers q s cached returned e h)

-- The call that won puts its statement into the cache.
store-IsSound :
    (q : Text) (s : ℕ) (db : Cache)
    → Map.get s db.pending ≡ some q
    → Map.get q db.cached ≡ none
    → IsSound db
    → IsSound (fill q s none db)
unfolding fill
store-IsSound q s db mine e h = record {
  cached_open = λ p t f. elim (eq_cases q p) [
    | inl same ↦ cc (get-put_self q s db.cached, same, f, h.pending_open q s mine)
    | inr ne ↦ h.cached_open p t (sym (get-put_ne q p s db.cached ne) ∙ f)
  ];
  pending_open = λ p t f. elim (eq_cases s t) [
    | inl same ↦ absurd (cc (get-delete_self s db.pending, same, f))
    | inr ne ↦ h.pending_open p t (sym (get-delete_ne s t db.pending ne) ∙ f)
  ];
  pending_own = λ p t f g. elim (eq_cases s t) [
    | inl same ↦ absurd (cc (get-delete_self s db.pending, same, f))
    | inr ne ↦ elim (eq_cases q p) [
      | inl name ↦ ne (cc (get-put_self q s db.cached, name, g))
      | inr other ↦
          h.pending_own p t (sym (get-delete_ne s t db.pending ne) ∙ f)
            (sym (get-put_ne q p s db.cached other) ∙ g)
    ]
  ];
  held = λ p t f. elim (eq_cases s t) [
    | inl same ↦ inl (cc (get-put_self q s db.cached, h.pending_open q s mine, same, f))
    | inr ne ↦ elim (h.held p t f) [
      | inl kept ↦ inl (get-put_ne q p s db.cached (λ same. cc) ∙ kept)
      | inr own ↦ inr (get-delete_ne s t db.pending ne ∙ own)
    ]
  ];
  answered = (get-put_self q s db.cached, kept_answers q s db.cached db.returned e h.answered);
}

fill-IsSound :
    (q : Text) (s : ℕ) (db : Cache)
    → Map.get s db.pending ≡ some q
    → IsSound db
    → IsSound (fill q s (Map.get q db.cached) db)
fill-IsSound q s db mine h = elim (Option-cases (Map.get q db.cached)) [
  | inl e ↦ subst (λ o. IsSound (fill q s o db)) (sym e) (store-IsSound q s db mine e h)
  | inr (previous, e) ↦
      subst (λ o. IsSound (fill q s o db)) (sym e) (close-IsSound q s previous db mine e h)
]

Step-IsSound : {db next : Cache} → Step db next → IsSound db → IsSound next
Step-IsSound {db} (hits q s e) h = hit-IsSound q s db e h
Step-IsSound {db} (prepares q s e) h = prepare-IsSound q s db e h
Step-IsSound {db} (fills q s e) h = fill-IsSound q s db e h

Reaches-IsSound : {db : Cache} → Reaches db → IsSound db
Reaches-IsSound start = start-IsSound
Reaches-IsSound (after r step) = Step-IsSound step (Reaches-IsSound r)

-- In every interleaving of calls, a statement that a call returned for a query is the cached one,
-- so all calls with one query return one statement, and it is open for that query.
pub returned_shared :
    (db : Cache)
    → Reaches db
    → All
        (λ (r : Text × ℕ). (Map.get r.0 db.cached ≡ some r.1) × (Map.get r.1 db.opened ≡ some r.0))
        db.returned
returned_shared db reached =
    let h = Reaches-IsSound reached in with_opened db.returned h.answered h.cached_open
  where
    with_opened :
        (l : List (Text × ℕ))
        → All (λ (r : Text × ℕ). Map.get r.0 db.cached ≡ some r.1) l
        → ((q : Text) (s : ℕ) → Map.get q db.cached ≡ some s → Map.get s db.opened ≡ some q)
        → All
            (λ (r : Text × ℕ).
              (Map.get r.0 db.cached ≡ some r.1) × (Map.get r.1 db.opened ≡ some r.0))
            l
    with_opened [] h k = tt
    with_opened ((q, s) ∷ l) (e, h) k = ((e, k q s e), with_opened l h k)

-- No statement is lost: one that is open is in the cache, or some call still holds it.
pub opened_held :
    (db : Cache) (query : Text) (stmt : ℕ)
    → Reaches db
    → Map.get stmt db.opened ≡ some query
    → (Map.get query db.cached ≡ some stmt) ⊎ (Map.get stmt db.pending ≡ some query)
opened_held db query stmt reached e = (Reaches-IsSound reached).held query stmt e
