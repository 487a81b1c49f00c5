-- ===== src/Deploying.antt =====
-- The way of a formation through the program: formation.go stores and publishes it, and
-- scheduler/main.go receives it and starts or stops jobs. What lies between them, rpc.go and the
-- network, carries an expanded formation as it is.
use flynn_controller.Prelude.{
  ◌≡◌, refl, ◌∙◌, Option, none, some, [], ◌∷◌, ◌++◌, Bool, Text, text_eq, pair_eq, eq_iff,
  Bool-cases, inl, inr, arith, ltb, ℤ, pos_part, All, true,
}
use flynn_controller.Prelude.Map
use flynn_controller.Prelude.Map.{Map, IsUnique, get_head, get_tail}
use flynn_controller.Types.{App, Release, Artifact, Formation, ExpandedFormation}
use flynn_controller.Utils.{docker_image}
use flynn_controller.Decimal.RoundTrip.{IsInt}
use flynn_controller.Sql.{ok, clean_uuid}
use flynn_controller.FormationRepo.{Statements, add}
use flynn_controller.FormationRepo.Processes.{positive}
use flynn_controller.FormationRepo.Storing.{IsTable}
use flynn_controller.FormationRepo.Publishing.{Lookups, publish}
use flynn_controller.FormationRepo.Publishing.Sent.{Finds, publish-add}
use flynn_controller.Scheduler.State.{Addr, Services, done}
use flynn_controller.Scheduler.Context.{
  Context, StreamItem, sentinel, expanded, receive, run_task, rectify_formation,
}
use flynn_controller.Scheduler.Adding.{Answers}
use flynn_controller.Scheduler.Converging.{target}
use flynn_controller.Scheduler.Following.{IsConverged, IsReceivable, receive-Follows}

-- What the loop of watchFormations takes from an expanded formation. Nothing stands for one with an
-- application but without a release, on which the loop panics, or without an artifact, on which
-- NewFormation's formation panics later.
unfoldable pub item_of : ExpandedFormation → Option StreamItem
item_of e = elim e.app [
  | none ↦ some sentinel
  | some app ↦ elim e.release [
    | none ↦ none
    | some release ↦ elim e.artifact [
      | none ↦ none
      | some artifact ↦ some (expanded app release artifact e.processes)
    ]
  ]
]

get-positive_absent :
    (t : Text) (m : Map Text ℤ) → Map.get t m ≡ none → Map.get t (positive m) ≡ none
unfolding positive Map.get
get-positive_absent t [] h = refl
get-positive_absent t ((k, n) ∷ m) h = ground (arith, get-positive_absent t m)

positive-IsUnique : (m : Map Text ℤ) → IsUnique m → IsUnique (positive m)
unfolding positive
positive-IsUnique [] u = tt
positive-IsUnique ((k, n) ∷ m) u = elim (Bool-cases (ltb 0 (pos_part n))) [
  | inl kept ↦ rw kept (get-positive_absent k m u.0, positive-IsUnique m u.1)
  | inr dropped ↦ rw dropped (positive-IsUnique m u.1)
]

-- The counts that are left out are read as 0, as the scheduler takes them.
target-positive : (t : Text) (m : Map Text ℤ) → IsUnique m → target t (positive m) ≡ target t m
unfolding positive target Map.get
target-positive t [] u = refl
target-positive t ((k, n) ∷ m) u =
    ground (arith, target-positive t m u.1, get-positive_absent k m u.0, eq_iff k t)

module _ {W C : Type 0} (services : Services W C) where
  -- The item is received, and the goroutine that is started for it leaves a formation with as many
  -- jobs of each type as `processes` says.
  pub record Deploys (item : StreamItem) (processes : Map Text ℤ) (c : Context W C) : Type 0 where
    pub at : Addr
    pub received : Context W C
    pub final : Context W C
    pub receives : receive item c ≡ done received
    pub started : received.tasks ≡ c.tasks ++ rectify_formation true at ∷ []
    pub runs : run_task services (rectify_formation true at) received ≡ done final
    pub converged : IsConverged at processes final

module _ {W C : Type 0} (services : Services W C) (issued : W → Text → Bool)
    (answers : Answers services issued) where
  module _ {D : Type 0} (lookups : Lookups D) (db : Statements D) where
    -- When a formation was stored in a table that keeps what is written, what publish then sends
    -- is received by the scheduler, and when its goroutine has run, there are as many jobs of each
    -- type as the stored formation asks for, none where a count is negative or missing. This is so
    -- where the counts fit Go's int, the application, release and artifact are found, the artifact
    -- has an image, the scheduler's services answer, and the jobs of a known formation are ready.
    pub add-Deploys :
        (f g : Formation) (app : App) (release : Release) (artifact : Artifact) (w after : D)
        (image : Text) (c : Context W C)
        → IsTable db
        → All (λ (e : Text × ℤ). IsInt e.1) f.processes
        → IsUnique f.processes
        → add db f w ≡ (ok g, after)
        → Finds lookups (clean_uuid f.app_id) (clean_uuid f.release_id) app release artifact after
        → docker_image services.parse_url artifact.uri ≡ some image
        → ((a : Addr)
            → Map.get (app.id, release.id) c.formations ≡ some a
            → IsReceivable services issued answers image a c)
        → (e : ExpandedFormation) × (item : StreamItem) × (publish lookups db f.app_id f.release_id
              after
            ≡ (some e, after))
          × (item_of e ≡ some item)
          × Deploys services item f.processes c
    unfolding item_of
    add-Deploys f g app release artifact w after image c table fits u stored finds im known =
        let follows =
          receive-Follows services issued answers image app release artifact (positive f.processes)
            c im (positive-IsUnique f.processes u) known in
        (
          _,
          _,
          publish-add lookups db f g app release artifact w after table fits stored finds,
          refl,
          record {
            at = follows.at;
            received = follows.received;
            final = follows.final;
            receives = follows.receives;
            started = follows.started;
            runs = follows.runs;
            converged = record {
              formation = follows.converged.formation;
              stands = follows.converged.stands;
              counts = λ t. follows.converged.counts t ∙ target-positive t f.processes u;
            };
          },
        )
