-- ===== src/Tests/Notifying.antt =====
-- formation.go: a notification, and the rows that a new subscription gets.
use flynn_controller.Prelude.{ℕ, ◌≡◌, refl, Bool, false, Option, some, List, [], ◌∷◌, codes, arith}
use flynn_controller.Sql.{Sql, row, failed}
use flynn_controller.FormationRepo.{Row}
use flynn_controller.FormationRepo.Notifying.{payload, notified, notified-payload}
use flynn_controller.FormationRepo.Updated.{
  send_updated_since, IsAnswered, send_updated_since-IsAnswered,
}
use flynn_controller.Scheduler.State.{done}
use flynn_controller.Tests.Table.{World}
use flynn_controller.Tests.Formations.{lookups, columns, stored}

read_back : notified (payload (codes "a-1") (codes "r:2")) ≡ done (codes "a-1", codes "r:2")
read_back = notified-payload (codes "a-1") (codes "r:2") (ground arith)

abbrev changed : Row
changed = record {
  app_id = codes "a-1";
  release_id = codes "r";
  processes = columns;
  created_at = 1;
  updated_at = 2;
}

-- The third row cannot be read.
abbrev query : ℕ → World → Option (List (Sql Row) × Bool) × World
query since w = (some (row changed ∷ row changed ∷ failed ∷ [], false), w)

send_updated_since-IsAnswered_example :
    IsAnswered
      (row changed ∷ row changed ∷ failed ∷ [])
      false
      (send_updated_since lookups query 1 stored)
send_updated_since-IsAnswered_example =
    send_updated_since-IsAnswered lookups query 1 (row changed ∷ row changed ∷ failed ∷ []) false
      stored stored refl
