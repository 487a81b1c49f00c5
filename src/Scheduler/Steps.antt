-- ===== src/Scheduler/Steps.antt =====
-- The goroutines of scheduler/main.go as steps: the loop of watchFormations, the goroutines that it
-- starts, and one watchHost for each host. A method of a formation is one step, for it holds the
-- lock of the formation; the rectify that syncCluster starts without it is one step, too.
-- syncCluster runs before the loop, so that it is the start.
pub mod Watchers
pub mod Grounded
pub mod Placed
pub mod Entered
pub mod Synced
pub mod Pointers
use flynn_controller.Prelude.{
  ◌≡◌, Bool, true, false, List, [], ◌∷◌, ◌++◌, Text, IsIn, if◌then◌else◌,
}
use flynn_controller.Scheduler.State.{Services, done}
use flynn_controller.Scheduler.Context.{
  Context, new_context, Task, rectify_formation, remove_from, watch, StreamItem, receive,
  watch_start, watch_dial, watch_event, watch_end, run_task,
}
use flynn_controller.Scheduler.Sync.{sync_cluster}

-- Where a watchHost that runs is: before `c.hosts.Set`, or in the loop over the events.
pub data Phase : Type 0 where
  dialing streaming : Phase

-- `watchers` are the watchHost goroutines whose `c.hosts.Add` succeeded and that have not ended.
pub record System (W C : Type 0) : Type 0 where
  pub context : Context W C
  pub watchers : List (Text × Phase)

-- A goroutine other than watchHost.
abbrev pub is_work : Task → Bool
is_work (rectify_formation locked a) = true
is_work (remove_from f typ host id) = true
is_work (watch id) = false

-- A watchHost starts: it ends at once where the host is being watched.
unfoldable pub begin : {W C : Type 0} → Text → List Task → System W C → System W C
unfolding watch_start
begin id rest y =
    let (c, added) = watch_start id (record y.context { tasks = rest }) in
    record { context = c; watchers = if added then (id, dialing) ∷ y.watchers else y.watchers }

module _ {W C : Type 0} (services : Services W C) where
  pub data Step (y : System W C) : System W C → Type 0 where
    receives :
        (item : StreamItem) (c : Context W C)
        → receive item y.context ≡ done c
        → Step y (record y { context = c })
    runs :
        (front back : List Task) (t : Task) (c : Context W C)
        → y.context.tasks ≡ front ++ t ∷ back
        → is_work t ≡ true
        → run_task services t (record y.context { tasks = front ++ back }) ≡ done c
        → Step y (record y { context = c })
    begins :
        (front back : List Task) (id : Text)
        → y.context.tasks ≡ front ++ watch id ∷ back
        → Step y (begin id (front ++ back) y)
    dials :
        (front back : List (Text × Phase)) (id : Text) (c : Context W C)
        → y.watchers ≡ front ++ (id, dialing) ∷ back
        → watch_dial services id y.context ≡ done c
        → Step y (record { context = c; watchers = front ++ (id, streaming) ∷ back })
    gets :
        (id event job_id : Text)
        → IsIn (id, streaming) y.watchers
        → Step y (record y { context = watch_event id event job_id y.context })
    ends :
        (front back : List (Text × Phase)) (id : Text)
        → y.watchers ≡ front ++ (id, streaming) ∷ back
        → Step y (record { context = watch_end id y.context; watchers = front ++ back })

  -- the systems that some interleaving of the goroutines reaches
  pub data Reaches : System W C → Type 0 where
    starts :
        (w : W)
        → Reaches (record { context = sync_cluster services (new_context w); watchers = [] })
    later : {y z : System W C} → Reaches y → Step y z → Reaches z
