-- ===== src/Tests/Deploying.antt =====
-- A formation that is stored while the scheduler knows an earlier state of it.
use flynn_controller.Prelude.{ℕ, ◌≡◌, refl, subst, some, [], ◌∷◌, codes, text_eq, pair_eq, list_eqb}
use flynn_controller.Prelude.Map
use flynn_controller.Types.{ExpandedFormation}
use flynn_controller.FormationRepo.Publishing.{publish}
use flynn_controller.Scheduler.State.{Addr}
use flynn_controller.Scheduler.Context.{Context, StreamItem}
use flynn_controller.Scheduler.Following.{IsReceivable}
use flynn_controller.Deploying.{item_of, Deploys, add-Deploys}
use flynn_controller.Tests.Table.{table, table-IsTable}
use flynn_controller.Tests.Formations.{
  app, release, artifact, formation, stamped, stored, lookups, add_again, counts, counts_fit,
}
use flynn_controller.Tests.Scheduling.{services, issued, answers, start, image, start-IsReady}

abbrev context : Context ℕ Unit
context = record {
  formations = ((app.id, release.id), 0) ∷ [];
  heap = start.self ∷ [];
  hosts = start.hosts;
  jobs = start.jobs;
  tasks = [];
  world = 4;
}

receivable :
    (a : Addr)
    → Map.get (app.id, release.id) context.formations ≡ some a
    → IsReceivable services issued answers (codes "x") a context
unfolding Map.get list_eqb
receivable a h =
    subst (λ b. IsReceivable services issued answers (codes "x") b context) (cc h)
      (record { formation = start.self; stands = refl; image_of = image; ready = start-IsReady })

add-Deploys_example :
    (e : ExpandedFormation) × (item : StreamItem) × (publish lookups table
        (codes "a-1")
        (codes "r")
        stored
      ≡ (some e, stored))
    × (item_of e ≡ some item)
    × Deploys services item counts context
unfolding Map.get list_eqb
add-Deploys_example =
    add-Deploys services issued answers lookups table formation stamped app release artifact stored
      stored (codes "x") context table-IsTable counts_fit (refl, (refl, tt)) add_again
      (refl, refl, refl) image receivable
