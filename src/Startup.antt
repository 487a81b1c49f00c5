-- ===== src/Startup.antt =====
-- The main functions of controller.go and scheduler/main.go: calls of other packages in a row, each
-- of which ends the process by log.Fatal where it fails.
use flynn_controller.Prelude.{
  ◌≡◌, refl, ap, Bool, List, [], ◌∷◌, ◌++◌, Text, codes, arith, IsIn, inl, inr, Bool-cases,
  if◌then◌else◌,
}

pub data Action : Type 0 where
  -- controller.go: postgres.Open, migrateDB, cluster.NewClient, strowgerc.New, discoverd.Register
  -- and http.ListenAndServe, with their addresses
  open_database migrate connect_cluster connect_router : Action
  register_service : Text → Action
  serve : Text → Action
  -- scheduler/main.go: NewClient, the wait for leadership, and watchFormations
  connect_controller : Text → Action
  stand_by : Text → Action
  watch_formations : Action

abbrev port_or_default : Text → Text
port_or_default [] = codes "3000"
port_or_default (c ∷ port) = c ∷ port

-- main of controller.go, from the value of PORT
unfoldable pub controller_main : Text → List Action
controller_main port =
    open_database
    ∷ migrate
    ∷ connect_cluster
    ∷ connect_router
    ∷ register_service (b':' ∷ port_or_default port)
    ∷ serve (b':' ∷ port_or_default port)
    ∷ []

-- main of scheduler/main.go
unfoldable pub scheduler_main : Text → List Action
scheduler_main port =
    connect_controller [] ∷ connect_cluster ∷ stand_by (b':' ∷ port) ∷ watch_formations ∷ []

-- What is called, in order; a true flag is an error.
unfoldable pub perform : {W : Type 0} → (Action → W → Bool × W) → List Action → W → List Action × W
perform act [] w = ([], w)
perform act (a ∷ actions) w =
    let (failed, w1) = act a w in
    let (later, w2) = perform act actions w1 in if failed then (a ∷ [], w1) else (a ∷ later, w2)

module _ {W : Type 0} (act : Action → W → Bool × W) where
  -- An action that stands once and as the last is called only where all before it were called and
  -- did not fail.
  perform_last :
      (front : List Action) (a : Action) (w : W)
      → (IsIn a front → ⊥)
      → IsIn a (perform act (front ++ a ∷ []) w).0
      → (perform act (front ++ a ∷ []) w).0 ≡ front ++ a ∷ []
  unfolding perform
  perform_last [] a w new called = elim (Bool-cases (act a w).0) [
    | inl failed ↦ rw failed refl
    | inr fine ↦ rw fine refl
  ]
  perform_last (x ∷ front) a w new called = elim (Bool-cases (act x w).0) [
    | inl failed ↦ absurd (elim (rw failed at called) [ inl e ↦ new (inl e) | inr i ↦ i ])
    | inr fine ↦ elim (rw fine at called) [
      | inl e ↦ absurd (new (inl e))
      | inr i ↦
          rw fine (ap (λ later. x ∷ later) (perform_last front a (act x w).1 (λ j. new (inr j)) i))
    ]
  ]

  -- The controller serves only with its database open and migrated, its clients connected and the
  -- service registered.
  pub controller_serves :
      (port : Text) (w : W)
      → IsIn (serve (b':' ∷ port_or_default port)) (perform act (controller_main port) w).0
      → (perform act (controller_main port) w).0 ≡ controller_main port
  unfolding controller_main
  controller_serves port w =
      perform_last
        (open_database
          ∷ migrate
          ∷ connect_cluster
          ∷ connect_router
          ∷ register_service (b':' ∷ port_or_default port)
          ∷ [])
        (serve (b':' ∷ port_or_default port)) w (λ i. ground (arith, i))

  -- The scheduler follows the formations only once it is the leader.
  pub scheduler_watches :
      (port : Text) (w : W)
      → IsIn watch_formations (perform act (scheduler_main port) w).0
      → (perform act (scheduler_main port) w).0 ≡ scheduler_main port
  unfolding scheduler_main
  scheduler_watches port w =
      perform_last (connect_controller [] ∷ connect_cluster ∷ stand_by (b':' ∷ port) ∷ [])
        watch_formations w (λ i. ground (arith, i))
