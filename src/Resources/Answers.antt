-- ===== src/Resources/Answers.antt =====
-- The handlers that add resources, over a database with transactions.
use flynn_controller.Prelude.{◌≡◌, ◌⊎◌, ap, arith, inl, inr, none, some, Text, Option-cases}
use flynn_controller.Types.{Provider, Resource}
use flynn_controller.Http.{json, answer}
use flynn_controller.Resources.{Statements, add}
use flynn_controller.Resources.Atomic.{Data, IsStore, add_error}
use flynn_controller.Resources.Storing.{Naming, IsNaming, IsStored, add-IsStored}
use flynn_controller.Resources.Handlers.{put_resource}

module _ {W D : Type 0} (db : Statements W) (uuid : W → Text × W) (tables : Data D)
    (committed working : W → D) (store : IsStore db uuid tables committed working)
    (names : Naming D) (naming : IsNaming db tables working names) where
  -- PUT of a resource answers 500 and commits nothing, or answers 200 with a resource that is
  -- committed with its provider and with one link for each application.
  pub put_resource-IsStored :
      (p : Provider) (id : Text) (r : Resource) (w : W)
      → let (answered, after) = put_resource db uuid p id r w in
        ((answered ≡ json 500 none) × (committed after ≡ committed w))
        ⊎ ((s : Resource) × (used : Text) × (answered ≡ json 200 (some s))
            × IsStored db uuid tables committed working store names naming
                (record r { id = id; provider_id = p.id })
                s
                used
                (committed w)
                (committed after))
  unfolding put_resource
  put_resource-IsStored p id r w =
      let asked : Resource = record r { id = id; provider_id = p.id } in
      let (added, w1) = add db uuid asked w in
      elim (Option-cases added) [
        | inl bad ↦ inl (
          ap answer bad,
          add_error db uuid tables committed working store asked w w1 (ground arith),
        )
        | inr (s, good) ↦
            let (used, given, stored) =
              add-IsStored db uuid tables committed working store names naming asked s w w1
                (ground arith) in
            inr (s, used, ap answer good, stored)
      ]
