-- ===== src/Scheduler/Calling.antt =====
-- A method of a formation of scheduler/main.go, as the scheduler's context sees it, and the loop of
-- watchFormations.
-- A method of a formation of scheduler/main.go, as the scheduler's context sees it.
use flynn_controller.Prelude.{
  ◌≡◌, refl, sym, ap, ◌∙◌, true, none, some, [], ◌∷◌, ◌++◌, map, Text, text_eq, pair_eq, length,
  Option-cases, inl, inr, get_elem?, set, subst, ℤ,
}
use flynn_controller.Prelude.Map
use flynn_controller.Prelude.Map.{Map}
use flynn_controller.Types.{App, Release, Artifact}
use flynn_controller.Scheduler.State.{Addr, Formation, State, Outcome, done, >>=-eq-done}
use flynn_controller.Scheduler.Formations
use flynn_controller.Scheduler.Context.{
  Context, StreamItem, sentinel, expanded, new_formation, alloc, call, set_processes, receive,
  spawn, watch, rectify_formation,
}

module _ {W C : Type 0} where
  -- What a method of the formation at an address starts from.
  abbrev pub state_of : Addr → Formation → Context W C → State W C
  state_of a f c = record {
    addr = a;
    self = f;
    jobs = c.jobs;
    hosts = c.hosts;
    watches = [];
    world = c.world;
  }

  abbrev pub returned : Context W C → Addr → State W C → Context W C
  returned c a s = record c {
    heap = set c.heap a s.self;
    jobs = s.jobs;
    tasks = c.tasks ++ map watch s.watches;
    world = s.world;
  }

  pub call-done :
      (a : Addr) (method : State W C → Outcome (State W C)) (f : Formation) (s : State W C)
      (c : Context W C)
      → get_elem? c.heap a ≡ some f
      → method (state_of a f c) ≡ done s
      → call a method c ≡ done (returned c a s)
  unfolding call
  call-done a method f s c at run = rw (at, call) (rw run refl)

  -- A call that returns found the formation.
  pub record Called (a : Addr) (method : State W C → Outcome (State W C)) (c c' : Context W C)
      : Type 0 where
    pub self : Formation
    pub final : State W C
    pub stands : get_elem? c.heap a ≡ some self
    pub ran : method (state_of a self c) ≡ done final
    pub result : c' ≡ returned c a final

  pub call-eq-done :
      (a : Addr) (method : State W C → Outcome (State W C)) (c c' : Context W C)
      → call a method c ≡ done c'
      → Called a method c c'
  unfolding call
  call-eq-done a method c c' h = elim (Option-cases (get_elem? c.heap a)) [
    | inl missing ↦ cc (rw (missing, call) at h)
    | inr (f, stands) ↦
        let (s, ran, e) = >>=-eq-done (method (state_of a f c)) _ (rw (stands, call) at h) in
        record { self = f; final = s; stands = stands; ran = ran; result = cc e }
  ]

  -- What an item of the stream makes of the context.
  pub data Received (c : Context W C) : StreamItem → Context W C → Type 0 where
    ignored : Received c sentinel c
    registered :
        (app : App) (release : Release) (artifact : Artifact) (processes : Map Text ℤ)
        → Map.get (app.id, release.id) c.formations ≡ none
        → Received c (expanded app release artifact processes) (record c {
          formations = Map.put (app.id, release.id) (length c.heap) c.formations;
          heap = c.heap ++ new_formation app.id release artifact processes ∷ [];
          tasks = c.tasks ++ rectify_formation true (length c.heap) ∷ [];
        })
    updated :
        (app : App) (release : Release) (artifact : Artifact) (processes : Map Text ℤ) (a : Addr)
        (f : Formation)
        → Map.get (app.id, release.id) c.formations ≡ some a
        → get_elem? c.heap a ≡ some f
        → Received c (expanded app release artifact processes) (record c {
          heap = set c.heap a (record f { processes = processes });
          tasks = (c.tasks ++ []) ++ rectify_formation true a ∷ [];
        })

  pub receive-eq-done :
      (item : StreamItem) (c c' : Context W C) → receive item c ≡ done c' → Received c item c'
  unfolding receive Formations.get Formations.add Formations.key new_formation alloc set_processes
  receive-eq-done sentinel c c' h = subst (Received c sentinel) (cc h) ignored
  receive-eq-done (expanded app release artifact processes) c c' h =
      elim (Option-cases (Map.get (app.id, release.id) c.formations)) [
        | inl new ↦
            subst (Received c (expanded app release artifact processes))
              (cc (rw (new, Formations.add) at (rw (new, receive) at h)))
              (registered app release artifact processes new)
        | inr (a, known) ↦
            let (c1, called, e) =
              >>=-eq-done (call a (set_processes processes) c) _ (rw (known, receive) at h) in
            let run = call-eq-done a (set_processes processes) c c1 called in
            let final : record (state_of a run.self c) {
              self = record run.self { processes = processes };
            }
                ≡ run.final =
              cc (run.ran) in
            let result : returned c a (record (state_of a run.self c) {
              self = record run.self { processes = processes };
            })
                ≡ c1 =
              ap (returned c a) final ∙ sym run.result in
            subst (Received c (expanded app release artifact processes))
              (ap (spawn (rectify_formation true a)) result ∙ cc (e))
              (updated app release artifact processes a run.self known run.stands)
      ]
