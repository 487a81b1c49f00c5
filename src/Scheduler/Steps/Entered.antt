-- ===== src/Scheduler/Steps/Entered.antt =====
-- syncCluster of scheduler/main.go gives every job that it enters a formation in the heap.
use flynn_controller.Prelude.{
  ℕ, ◌+◌, ◌≤◌, ◌<◌, ◌≡◌, refl, sym, Option, none, some, List, [], ◌∷◌, ◌++◌, Text, text_eq, pair_eq,
  nat_eq, arith, length, length-append, length-set, All, All-IsIn, All-map, inl, inr, Option-cases,
  ℤ, subst, get_elem?,
}
use flynn_controller.Prelude.Map
use flynn_controller.Prelude.Entries.{All-put}
use flynn_controller.Prelude.Map.{Map, get-entry}
use flynn_controller.Types.{Release, Artifact}
use flynn_controller.Scheduler.Formations
use flynn_controller.Scheduler.State.{JobKey, Job, FormationKey, Addr, Formation, Services}
use flynn_controller.Scheduler.JobMap
use flynn_controller.Scheduler.Context.{new_formation, alloc}
use flynn_controller.Scheduler.Steps.Grounded.{
  IsOwned, owned, AreOwned, AreAddrs, IsGrounded, IsGroundedTask, IsGroundedTask-mono,
  AreOwned-mono, AreAddrs-mono,
}
use flynn_controller.Scheduler.Sync.{
  Sync, find_release, find_artifact, enter_formation, find_formation, add_at, enter_job,
  enter_found, entered,
}

abbrev pub IsAddr : ℕ → Option Addr → Type 0
IsAddr n none = Unit
IsAddr n (some a) = a < n

length-add_at :
    (type host id : Text) (a : Addr) (heap : List Formation)
    → length (add_at type host id a heap) ≡ length heap
unfolding add_at
length-add_at type host id a heap = elim (Option-cases (get_elem? heap a)) [
  | inl missing ↦ rw (missing, add_at) refl
  | inr (f, there) ↦ rw (there, add_at) (length-set heap a _)
]

module _ {W C : Type 0} where
  pub record IsEntered (y : Sync W C) : Type 0 where
    pub context : IsGrounded y.context
    pub rectify : All (λ (e : Addr × Unit {0}). e.0 < length y.context.heap) y.rectify

  -- The local maps and the world may change.
  IsEntered-local :
      (y : Sync W C) (releases : Map Text Release) (artifacts : Map Text Artifact) (w : W)
      → IsEntered y
      → IsEntered (record y {
        context = record y.context { world = w };
        releases = releases;
        artifacts = artifacts;
      })
  IsEntered-local y releases artifacts w h = record {
    context = record {
      formations = h.context.formations;
      jobs = h.context.jobs;
      tasks = h.context.tasks;
    };
    rectify = h.rectify;
  }

  enter_job-IsEntered :
      (type host id : Text) (a : Addr) (y : Sync W C)
      → a < length y.context.heap
      → IsEntered y
      → IsEntered (enter_job type host id a y)
  unfolding enter_job JobMap.add
  enter_job-IsEntered type host id a y lt h =
      let same = sym (length-add_at type host id a y.context.heap) in
      let n = length y.context.heap in
      record {
        context = record {
          formations = subst (λ m. AreAddrs m y.context.formations) same h.context.formations;
          jobs =
              subst (λ m. AreOwned m (Map.put (host, id) (entered type a) y.context.jobs)) same
                (All-put (λ (e : JobKey × Job). IsOwned n e.1) (host, id) (entered type a)
                  y.context.jobs (owned a refl lt) h.context.jobs);
          tasks = subst (λ m. All (IsGroundedTask m) y.context.tasks) same h.context.tasks;
        };
        rectify =
            subst (λ m. All (λ (e : Addr × Unit {0}). e.0 < m) (Map.put a tt y.rectify)) same
              (All-put (λ (e : Addr × Unit {0}). e.0 < n) a tt y.rectify lt h.rectify);
      }

  pub enter_found-IsEntered :
      (type host id : Text) (a : Option Addr) (y : Sync W C)
      → IsAddr (length y.context.heap) a
      → IsEntered y
      → IsEntered (enter_found type host id a y)
  unfolding enter_found
  enter_found-IsEntered type host id none y lt h = h
  enter_found-IsEntered type host id (some a) y lt h = enter_job-IsEntered type host id a y lt h

  abbrev pub IsFound : Option Addr × Sync W C → Type 0
  IsFound (a, y) = IsAddr (length y.context.heap) a × IsEntered y

module _ {W C : Type 0} (services : Services W C) where
  enter_formation-IsFound :
      (app_id : Text) (release : Release) (artifact : Artifact) (processes : Map Text ℤ)
      (y : Sync W C)
      → IsEntered y
      → IsFound (enter_formation services app_id release artifact processes y)
  unfolding enter_formation Formations.add Formations.key new_formation alloc
  enter_formation-IsFound app_id release artifact processes y h =
      let heap = y.context.heap ++ new_formation app_id release artifact processes ∷ [] in
      let len : length heap ≡ length y.context.heap + 1 = length-append y.context.heap _ in
      let le : length y.context.heap ≤ length heap = omega (arith, len) in
      let lt : length y.context.heap < length heap = omega (arith, len) in
      let jobs = AreOwned-mono y.context.jobs le h.context.jobs in
      let known = AreAddrs-mono y.context.formations le h.context.formations in
      let tasks = All-map (λ x. IsGroundedTask-mono x le) y.context.tasks h.context.tasks in
      let rectify : All (λ (e : Addr × Unit {0}). e.0 < length heap) y.rectify =
        All-map (λ (e : Addr × Unit {0}) l. omega arith) y.rectify h.rectify in
      elim (Option-cases (Map.get (app_id, release.id) y.context.formations)) [
        | inl new ↦
            rw (new, Formations.add)
              (
                lt,
                record {
                  context = record {
                    formations =
                        All-put (λ (e : FormationKey × Addr). e.1 < length heap)
                          (app_id, release.id) (length y.context.heap) y.context.formations lt
                          known;
                    jobs = jobs;
                    tasks = tasks;
                  };
                  rectify = rectify;
                },
              )
        | inr (a, there) ↦
            rw (there, Formations.add)
              (
                All-IsIn (λ (e : FormationKey × Addr). e.1 < length heap) ((app_id, release.id), a)
                    y.context.formations known
                    (get-entry (app_id, release.id) a y.context.formations there),
                record {
                  context = record { formations = known; jobs = jobs; tasks = tasks };
                  rectify = rectify;
                },
              )
      ]

  find_release-IsEntered :
      (id : Text) (y : Sync W C) → IsEntered y → IsEntered (find_release services id y).1
  unfolding find_release
  find_release-IsEntered id y h = elim (Option-cases (Map.get id y.releases)) [
    | inr (r, known) ↦ rw (known, find_release) h
    | inl new ↦ elim (Option-cases (services.get_release id y.context.world).0) [
      | inl e ↦ rw (new, find_release) (rw e (IsEntered-local y y.releases y.artifacts _ h))
      | inr (r, e) ↦
          rw (new, find_release)
            (rw e (IsEntered-local y (Map.put r.id r y.releases) y.artifacts _ h))
    ]
  ]

  find_artifact-IsEntered :
      (id : Text) (y : Sync W C) → IsEntered y → IsEntered (find_artifact services id y).1
  unfolding find_artifact
  find_artifact-IsEntered id y h = elim (Option-cases (Map.get id y.artifacts)) [
    | inr (a, known) ↦ rw (known, find_artifact) h
    | inl new ↦ elim (Option-cases (services.get_artifact id y.context.world).0) [
      | inl e ↦ rw (new, find_artifact) (rw e (IsEntered-local y y.releases y.artifacts _ h))
      | inr (a, e) ↦
          rw (new, find_artifact)
            (rw e (IsEntered-local y y.releases (Map.put a.id a y.artifacts) _ h))
    ]
  ]

  pub find_formation-IsFound :
      (app_id release_id : Text) (y : Sync W C)
      → IsEntered y
      → IsFound (find_formation services app_id release_id y)
  unfolding find_formation Formations.get
  find_formation-IsFound app_id release_id y h =
      let y1 = (find_release services release_id y).1 in
      let h1 = find_release-IsEntered release_id y h in
      elim (Option-cases (Map.get (app_id, release_id) y.context.formations)) [
        | inr (a, there) ↦
            rw (there, find_formation)
              (
                All-IsIn (λ (e : FormationKey × Addr). e.1 < length y.context.heap)
                    ((app_id, release_id), a) y.context.formations h.context.formations
                    (get-entry (app_id, release_id) a y.context.formations there),
                h,
              )
        | inl new ↦ elim (Option-cases (find_release services release_id y).0) [
          | inl e ↦ rw (new, find_formation) (rw e (tt, h1))
          | inr (release, e) ↦
              let y2 = (find_artifact services release.artifact_id y1).1 in
              let h2 = find_artifact-IsEntered release.artifact_id y1 h1 in
              elim (Option-cases (find_artifact services release.artifact_id y1).0) [
                | inl e2 ↦ rw (new, find_formation) (rw e (rw e2 (tt, h2)))
                | inr (artifact, e2) ↦
                    let (f, w) = services.get_formation app_id release_id y2.context.world in
                    elim (Option-cases
                      (services.get_formation app_id release_id y2.context.world).0) [
                        | inl e3 ↦
                            rw (new, find_formation)
                              (rw e (
                                rw e2
                                  (rw e3 (tt, IsEntered-local y2 y2.releases y2.artifacts _ h2))))
                        | inr (formation, e3) ↦
                            rw (new, find_formation)
                              (rw e (
                                rw e2 (
                                  rw e3 (
                                    enter_formation-IsFound app_id release artifact
                                      formation.processes _
                                      (IsEntered-local y2 y2.releases y2.artifacts _ h2)))))
                      ]
              ]
        ]
      ]
