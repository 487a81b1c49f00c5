-- ===== src/Scheduler/Steps/Watchers.antt =====
-- The watchHost goroutines of scheduler/main.go and the table of connections.
use flynn_controller.Prelude.{
  ◌≡◌, refl, sym, ap, ◌∙◌, Option, none, some, List, ◌∷◌, ◌++◌, Text, text_eq, ◌==◌, eq_cases,
  arith, inl, inr, Bool-cases, Option-cases, subst,
}
use flynn_controller.Prelude.Map
use flynn_controller.Prelude.Entries.{split-put, split-delete}
use flynn_controller.Prelude.Map.{
  Map, IsUnique, has_of_some, has_of_none, get-empty, get-put, get-put_self, get-put_ne, get_head,
  get_tail, get-delete, put-IsUnique, delete-IsUnique, delete_absent,
}
use flynn_controller.Scheduler.State.{Addr, Services, State, Outcome, done}
use flynn_controller.Scheduler.HostClients
use flynn_controller.Scheduler.Method.{rectify, remove_job}
use flynn_controller.Scheduler.Context.{
  Context, new_context, Task, rectify_formation, remove_from, watch, StreamItem, call, receive,
  watch_start, watch_dial, watch_event, watch_end, run_task,
}
use flynn_controller.Scheduler.Calling.{
  call-eq-done, receive-eq-done, Received, ignored, registered, updated,
}
use flynn_controller.Scheduler.Extending.{sync_cluster-hosts}
use flynn_controller.Scheduler.Steps.{
  Phase, dialing, streaming, System, begin, Step, receives, runs, begins, dials, gets, ends,
  Reaches, starts, later,
}

-- What the table of connections holds while a watchHost is in a phase.
abbrev pub phase_of : {C : Type 0} → Option C → Phase
phase_of none = dialing
phase_of (some connection) = streaming

abbrev pub phases : {C : Type 0} → Option (Option C) → Option Phase
phases none = none
phases (some o) = some (phase_of o)

module _ {W C : Type 0} where
  pub record IsWatched (y : System W C) : Type 0 where
    pub unique : IsUnique y.watchers
    pub agree : (id : Text) → Map.get id y.watchers ≡ phases (Map.get id y.context.hosts)

  IsWatched-hosts :
      (y : System W C) (c : Context W C)
      → c.hosts ≡ y.context.hosts
      → IsWatched y
      → IsWatched (record y { context = c })
  IsWatched-hosts y c same h = record {
    unique = h.unique;
    agree = λ id. h.agree id ∙ ap (λ m. phases (Map.get id m)) (sym same);
  }

  call-hosts :
      (a : Addr) (method : State W C → Outcome (State W C)) (c c' : Context W C)
      → call a method c ≡ done c'
      → c'.hosts ≡ c.hosts
  call-hosts a method c c' h =
      ap (λ (x : Context W C). x.hosts) (call-eq-done a method c c' h).result

  receive-hosts :
      (item : StreamItem) (c c' : Context W C) → receive item c ≡ done c' → c'.hosts ≡ c.hosts
  receive-hosts item c c' h = same (receive-eq-done item c c' h)
    where
      same : {i : StreamItem} {x : Context W C} → Received c i x → x.hosts ≡ c.hosts
      same ignored = refl
      same (registered app release artifact processes new) = refl
      same (updated app release artifact processes a f known stands) = refl

module _ {W C : Type 0} (services : Services W C) where
  run_task-hosts :
      (t : Task) (c c' : Context W C) → run_task services t c ≡ done c' → c'.hosts ≡ c.hosts
  unfolding run_task
  run_task-hosts (rectify_formation locked a) c c' h = call-hosts a (rectify services) c c' h
  run_task-hosts (remove_from none typ host id) c c' h = cc
  run_task-hosts (remove_from (some a) typ host id) c c' h =
      call-hosts a (remove_job services typ host id) c c' h
  run_task-hosts (watch id) c c' h =
      let same : c' ≡ c = cc (h) in ap (λ (x : Context W C). x.hosts) same

  begin-IsWatched :
      (id : Text) (rest : List Task) (y : System W C) → IsWatched y → IsWatched (begin id rest y)
  unfolding begin watch_start HostClients.add
  begin-IsWatched id rest y h = elim (Option-cases (Map.get id y.context.hosts)) [
    | inr (o, there) ↦
        rw (has_of_some id y.context.hosts there, begin)
          (record { unique = h.unique; agree = h.agree })
    | inl absent ↦
        rw (has_of_none id y.context.hosts absent, begin)
          (record {
            unique = (h.agree id ∙ ap phases absent, h.unique);
            agree = λ x. elim (eq_cases id x) [
              | inl same ↦ rw (← same, get_head, get-put_self id) refl
              | inr other ↦
                  rw
                    (
                      get_tail id x dialing y.watchers other,
                      get-put_ne id x none y.context.hosts other,
                    )
                    (h.agree x)
            ];
          })
  ]

  pub watch_dial-eq-done :
      (id : Text) (c c' : Context W C)
      → watch_dial services id c ≡ done c'
      → (connection : C) × (c' ≡ record c {
        hosts = Map.put id (some connection) c.hosts;
        world = (services.dial_host id c.world).1;
      })
  unfolding watch_dial HostClients.set
  watch_dial-eq-done id c c' run = by (services.dial_host id c.world).0 refl
    where
      by :
          (client : Option C)
          → (services.dial_host id c.world).0 ≡ client
          → (connection : C) × (c' ≡ record c {
            hosts = Map.put id (some connection) c.hosts;
            world = (services.dial_host id c.world).1;
          })
      by none e = cc (rw (e, watch_dial) at run)
      by (some connection) e = (connection, cc (rw (e, watch_dial) at run))

  dial-IsWatched :
      (front back : Map Text Phase) (id : Text) (y : System W C) (c : Context W C)
      → y.watchers ≡ front ++ (id, dialing) ∷ back
      → watch_dial services id y.context ≡ done c
      → IsWatched y
      → IsWatched (record { context = c; watchers = front ++ (id, streaming) ∷ back })
  dial-IsWatched front back id y c at run h =
      let u = subst IsUnique at h.unique in
      let same = split-put id dialing streaming front back u in
      let (connection, dialled) = watch_dial-eq-done id y.context c run in
      let hosts = ap (λ (x : Context W C). x.hosts) dialled in
      record {
        unique = rw same (put-IsUnique id streaming _ u);
        agree = λ x. elim (Bool-cases (id == x)) [
          | inl hit ↦
              rw
                (
                  same,
                  hosts,
                  get-put id x streaming (front ++ (id, dialing) ∷ back),
                  get-put id x (some connection) y.context.hosts,
                  hit,
                )
                refl
          | inr miss ↦
              rw
                (
                  same,
                  hosts,
                  get-put id x streaming (front ++ (id, dialing) ∷ back),
                  get-put id x (some connection) y.context.hosts,
                  miss,
                )
                (ap (Map.get x) (sym at) ∙ h.agree x)
        ];
      }

  end-IsWatched :
      (front back : Map Text Phase) (id : Text) (y : System W C)
      → y.watchers ≡ front ++ (id, streaming) ∷ back
      → IsWatched y
      → IsWatched (record { context = watch_end id y.context; watchers = front ++ back })
  unfolding watch_end HostClients.remove
  end-IsWatched front back id y at h =
      let u = subst IsUnique at h.unique in
      let same = split-delete id streaming front back u in
      record {
        unique = rw same (delete-IsUnique id _ u);
        agree = λ x. elim (Bool-cases (id == x)) [
          | inl hit ↦
              rw
                (
                  same,
                  get-delete id x (front ++ (id, streaming) ∷ back),
                  get-delete id x y.context.hosts,
                  hit,
                )
                refl
          | inr miss ↦
              rw
                (
                  same,
                  get-delete id x (front ++ (id, streaming) ∷ back),
                  get-delete id x y.context.hosts,
                  miss,
                )
                (ap (Map.get x) (sym at) ∙ h.agree x)
        ];
      }

  event-hosts :
      (id event job_id : Text) (c : Context W C) → (watch_event id event job_id c).hosts ≡ c.hosts
  unfolding watch_event
  event-hosts id event job_id c = ground arith

  Step-IsWatched : {y z : System W C} → Step services y z → IsWatched y → IsWatched z
  Step-IsWatched {y} (receives item c e) h =
      IsWatched-hosts y c (receive-hosts item y.context c e) h
  Step-IsWatched {y} (runs front back t c at work e) h =
      IsWatched-hosts y c (run_task-hosts t (record y.context { tasks = front ++ back }) c e) h
  Step-IsWatched {y} (begins front back id at) h = begin-IsWatched id (front ++ back) y h
  Step-IsWatched {y} (dials front back id c at e) h = dial-IsWatched front back id y c at e h
  Step-IsWatched {y} (gets id event job_id i) h =
      IsWatched-hosts y (watch_event id event job_id y.context)
        (event-hosts id event job_id y.context) h
  Step-IsWatched {y} (ends front back id at) h = end-IsWatched front back id y at h

  Reaches-IsWatched : {y : System W C} → Reaches services y → IsWatched y
  unfolding Map.get
  Reaches-IsWatched (starts w) = record {
    unique = tt;
    agree =
        λ id. ap (λ m. phases (Map.get id m)) (sym (sync_cluster-hosts services (new_context w)));
  }
  Reaches-IsWatched (later r s) = Step-IsWatched s (Reaches-IsWatched r)

-- In whatever order the goroutines run, no host is watched twice, and the table of connections says
-- of every host how far its watchHost is: no entry where there is none, an entry without a
-- connection while it dials, and a connection while it reads the events.
pub Reaches-agree :
    {W C : Type 0} (services : Services W C) {y : System W C}
    → Reaches services y
    → IsUnique y.watchers
      × ((id : Text) → Map.get id y.watchers ≡ phases (Map.get id y.context.hosts))
Reaches-agree services r = let h = Reaches-IsWatched services r in (h.unique, h.agree)
