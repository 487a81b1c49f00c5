-- ===== src/Scheduler/Idle.antt =====
-- `rectify` of scheduler/main.go on a formation that has its jobs.
use flynn_controller.Prelude.{
  ℕ, suc, ◌+◌, ◌≡◌, refl, sym, ap, ◌∙◌, Bool, Option, none, some, List, [], ◌∷◌, ◌++◌, Text,
  text_eq, length, arith, IsIn, inl, inr, Option-cases, ℤ, pos, negsuc, pos_part, minus_ℕ,
}
use flynn_controller.Prelude.Map
use flynn_controller.Prelude.Map.{Map, IsUnique, has_of_some, has_of_none, entry-get}
use flynn_controller.Types.{Host, HostJob}
use flynn_controller.Utils.{docker_image}
use flynn_controller.Scheduler.State.{
  Job, JobKey, Services, State, Outcome, done, panic, nil_dereference, ◌>>=◌,
}
use flynn_controller.Scheduler.HostClients
use flynn_controller.Scheduler.Method.{
  stop_each, remove, adjust, update_counts, remove_types, rectify, submit, register, unregister,
  pick_host, place, stop,
}
use flynn_controller.Scheduler.Counts.{jobs_in, count}
use flynn_controller.Scheduler.Induction.{Holds, Holds-done, rectify-Holds}
use flynn_controller.Scheduler.Adding.{Answers}
use flynn_controller.Scheduler.Converging.{IsReady, target}
use flynn_controller.Scheduler.Rectify.{rectify_converges}

length-zero : {A : Type 0} (xs : List A) → length xs ≡ 0 → xs ≡ []
length-zero [] h = refl
length-zero (x ∷ xs) h = absurd (omega (arith, h))

module _ {W C : Type 0} (services : Services W C) where
  -- Of a type without jobs there is nothing to stop.
  remove_idle : (n : ℕ) (t : Text) (s : State W C) → count t s ≡ 0 → remove services n t s ≡ done s
  unfolding remove stop_each Map.keys
  remove_idle n t s h =
      ap (λ (jobs : Map JobKey Job). stop_each services n 0 t (Map.keys jobs) s)
        (length-zero (jobs_in t s) h)

  adjust_idle :
      (z : ℤ) (t : Text) (s : State W C)
      → count t s ≡ pos_part z
      → adjust services (minus_ℕ z (count t s)) t s ≡ done s
  unfolding adjust
  adjust_idle (pos n) t s h =
      let none_left : minus_ℕ (pos n) (count t s) ≡ pos 0 = ground (arith, h) in
      ap (λ d. adjust services d t s) none_left
  adjust_idle (negsuc m) t s h = remove_idle (suc (m + count t s)) t s h

  update_counts_idle :
      (todo : Map Text ℤ) (s : State W C)
      → ((t : Text) (z : ℤ) → IsIn (t, z) todo → count t s ≡ pos_part z)
      → update_counts services todo s ≡ done s
  unfolding update_counts
  update_counts_idle [] s h = refl
  update_counts_idle ((t, z) ∷ todo) s h =
      rw (adjust_idle z t s (h t z (inl refl))) (update_counts_idle todo s (λ x y i. h x y (inr i)))

  remove_types_idle :
      (ts : List Text) (s : State W C)
      → ((t : Text) → count t s ≡ target t s.self.processes)
      → remove_types services ts s ≡ done s
  unfolding remove_types target
  remove_types_idle [] s h = refl
  remove_types_idle (t ∷ ts) s h = elim (Option-cases (Map.get t s.self.processes)) [
    | inr (z, listed) ↦ rw (has_of_some t s.self.processes listed) (remove_types_idle ts s h)
    | inl absent ↦
        let empty : count t s ≡ 0 = h t ∙ rw (absent, target) refl in
        rw (has_of_none t s.self.processes absent, remove_idle (count t s) t s empty)
          (remove_types_idle ts s h)
  ]

-- A formation that has as many jobs of each type as `Processes` asks for is left as it is: rectify
-- returns, no job is started or stopped, and no service is called.
pub rectify_idle :
    {W C : Type 0} (services : Services W C) (s : State W C)
    → IsUnique s.self.processes
    → ((t : Text) → count t s ≡ target t s.self.processes)
    → rectify services s ≡ done s
unfolding rectify target
rectify_idle services s u h =
    let listed = λ (t : Text) (z : ℤ) (i : IsIn (t, z) s.self.processes).
      let found = entry-get t z s.self.processes u i in
      let asked : count t s ≡ pos_part z = h t ∙ rw (found, target) refl in asked in
    rw (update_counts_idle services s.self.processes s listed)
      (remove_types_idle services (Map.keys s.self.jobs) s h)

module _ {W C : Type 0} (services : Services W C) (asked : Map Text ℤ) where
  abbrev Asks : State W C → Type 0
  Asks s = s.self.processes ≡ asked

  processes-submit :
      (name host : Text) (config : HostJob) (s : State W C)
      → (submit services name host config s).self.processes ≡ s.self.processes
  unfolding submit register unregister
  processes-submit name host config s = ground arith

  place-Asks :
      (name : Text) (config : Option HostJob) (s : State W C)
      → Asks s
      → Holds Asks (place services name config s)
  unfolding place
  place-Asks name none s h = tt
  place-Asks name (some config) s h =
      let (id, w1) = services.random_job_id s.world in
      let (hosts, failed, w2) = services.list_hosts w1 in picked (pick_host s.self name hosts) id w2
    where
      picked :
          (o : Outcome Host) (id : Text) (w : W)
          → Holds Asks (
              o >>= λ g. done (
                submit services name g.id
                  (record config { id = id })
                  (record s { watches = s.watches ++ g.id ∷ []; world = w })))
      picked (done g) id w =
          processes-submit name g.id (record config { id = id })
            (record s { watches = s.watches ++ g.id ∷ []; world = w })
          ∙ h
      picked (panic e) id w = tt

  stop-Asks :
      (name : Text) (k : JobKey) (s : State W C) → Asks s → Holds Asks (stop services name k s)
  unfolding stop unregister
  stop-Asks name (host, id) s h =
      elim (HostClients.get host s.hosts)
        as (λ client. Holds Asks (elim client [
          | none ↦ panic nil_dereference
          | some c ↦
              let (failed, w) = services.stop_job c id s.world in
              done (unregister name host id (record s { world = w }))
        ])) [ none ↦ tt | some c ↦ h ]

-- Under the conditions under which rectify reaches the formation, rectify is idempotent: a second
-- run right after the first starts and stops nothing.
pub rectify_twice :
    {W C : Type 0} (services : Services W C) (issued : W → Text → Bool)
    (answers : Answers services issued) (image : Text) (s : State W C)
    → docker_image services.parse_url s.self.artifact.uri ≡ some image
    → IsUnique s.self.processes
    → ((t : Text) → IsReady services issued answers t s)
    → (s' : State W C) × (rectify services s ≡ done s') × (rectify services s' ≡ done s')
rectify_twice services issued answers image s im u ready =
    let (s', run, counts) = rectify_converges services issued answers image s im u ready in
    let ps = s.self.processes in
    let same : s'.self.processes ≡ ps =
      Holds-done (Asks services ps) (rectify services s)
        (rectify-Holds services (Asks services ps) (place-Asks services ps) (stop-Asks services ps)
          s refl)
        run in
    (s', run, rectify_idle services s' (rw same u) (λ t. counts t ∙ ap (target t) (sym same)))
