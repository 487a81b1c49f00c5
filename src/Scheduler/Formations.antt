-- ===== src/Scheduler/Formations.antt =====
-- `Formations` of scheduler/main.go: the known formations by application and release. The map holds
-- pointers; the caller reads the key of a formation from the heap. Each method holds the map's lock.
use flynn_controller.Prelude.{Option, none, some, text_eq, pair_eq}
use flynn_controller.Prelude.Map
use flynn_controller.Prelude.Map.{Map}
use flynn_controller.Scheduler.State.{FormationKey, Addr, Formation}

unfoldable pub key : Formation → FormationKey
key f = (f.app_id, f.release.id)

unfoldable pub get : FormationKey → Map FormationKey Addr → Option Addr
get k fs = Map.get k fs

-- The formation that is registered for the key afterwards is returned.
unfoldable pub add : FormationKey → Addr → Map FormationKey Addr → Map FormationKey Addr × Addr
add k f fs = elim (Map.get k fs) [ none ↦ (Map.put k f fs, f) | some existing ↦ (fs, existing) ]

unfoldable pub delete : FormationKey → Map FormationKey Addr → Map FormationKey Addr
delete k fs = Map.delete k fs
