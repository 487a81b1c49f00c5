-- ===== src/Scheduler/HostClients.antt =====
-- `hostClients` of scheduler/main.go: the hosts that are watched, with the connection once it is
-- dialled (`none` stands for nil). Each method holds the map's lock.
use flynn_controller.Prelude.{Bool, true, false, Option, none, some, Text, text_eq, if◌then◌else◌}
use flynn_controller.Prelude.Map
use flynn_controller.Prelude.Map.{Map}

module _ {C : Type 0} where
  unfoldable pub add : Text → Map Text (Option C) → Map Text (Option C) × Bool
  add id m = if Map.has id m then (m, false) else (Map.put id none m, true)

  unfoldable pub set : Text → Option C → Map Text (Option C) → Map Text (Option C)
  set id client m = Map.put id client m

  unfoldable pub remove : Text → Map Text (Option C) → Map Text (Option C)
  remove id m = Map.delete id m

  -- nil where the host is missing or not dialled yet
  unfoldable pub get : Text → Map Text (Option C) → Option C
  get id m = elim (Map.get id m) [ none ↦ none | some client ↦ client ]
