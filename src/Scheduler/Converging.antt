-- ===== src/Scheduler/Converging.antt =====
-- `rectify` of scheduler/main.go reaches the formation: the counts of jobs become those of
-- `Processes`, when the services answer and the hosts of the jobs are connected.
use flynn_controller.Prelude.{
  ℕ, zero, suc, ◌+◌, ◌-◌, ◌≡◌, ◌≢◌, refl, sym, ap, ◌∙◌, Bool, none, some, List, [], ◌∷◌, Text,
  text_eq, pair_eq, eq_cases, nat_eqb, length, length-drop, arith, inl, inr, Bool-cases,
  Option-cases, ℤ, pos, negsuc, pos_part, minus_ℕ, minus_ℕ-eq-pos, minus_ℕ-eq-negsuc,
}
use flynn_controller.Prelude.Map
use flynn_controller.Prelude.Map.{Map, IsUnique, get-empty, get_head, get_tail}
use flynn_controller.Types.{Artifact, HostJob}
use flynn_controller.Utils.{docker_image, job_config_of_image}
use flynn_controller.Scheduler.State.{JobKey, Formation, Services, State, done, >>=-eq-done}
use flynn_controller.Scheduler.HostClients
use flynn_controller.Scheduler.Method.{
  unregister, stop, stop_each, remove, config_of, adjust, update_counts,
}
use flynn_controller.Scheduler.Counts.{jobs_in, count, Leaves, Leaves-refl}
use flynn_controller.Scheduler.Removing.{IsConnected, remove_drops}
use flynn_controller.Scheduler.Adding.{Answers, AreIssued, Grows, add-Added}

-- max(Processes[t], 0), and 0 for a type that is not there
unfoldable pub target : Text → Map Text ℤ → ℕ
target t processes = elim (Map.get t processes) [ none ↦ 0 | some z ↦ pos_part z ]

config_of_image :
    {W C : Type 0} (services : Services W C) (f : Formation) (name image : Text)
    → docker_image services.parse_url f.artifact.uri ≡ some image
    → (config : HostJob) × (config_of services f name ≡ some config)
unfolding config_of
config_of_image services f name image h =
    (_, job_config_of_image services.parse_url _ f.release f.artifact name image h)

module _ {W C : Type 0} (services : Services W C) (issued : W → Text → Bool)
    (answers : Answers services issued) where
  open answers use {keeps_stop}

  stop-Grows :
      (name : Text) (k : JobKey) (s s' : State W C)
      → stop services name k s ≡ done s'
      → Grows services issued answers s s'
  unfolding stop unregister
  stop-Grows name (host, id) s s' h x e = elim (Option-cases (HostClients.get host s.hosts)) [
    | inl absent ↦ cc (absent)
    | inr (c, present) ↦ ground (arith, present, keeps_stop c id s.world x)
  ]

  stop_each-Grows :
      (n i : ℕ) (name : Text) (ks : List JobKey) (s s' : State W C)
      → stop_each services n i name ks s ≡ done s'
      → Grows services issued answers s s'
  unfolding stop_each
  stop_each-Grows n i name [] s s' h x e = ground arith
  stop_each-Grows n i name (k ∷ ks) s s' h x e =
      let (s1, one, rest) = >>=-eq-done (stop services name k s) _ h in
      let e1 = stop-Grows name k s s1 one x e in
      elim (Bool-cases (nat_eqb (i + 1) n)) [
        | inl last ↦ ground arith
        | inr more ↦ stop_each-Grows n (i + 1) name ks s1 s' (rw more at rest) x e1
      ]

  -- What must hold of a type's jobs before its count is adjusted.
  pub record IsReady (t : Text) (s : State W C) : Type 0 where
    pub unique : IsUnique (jobs_in t s)
    pub issues : AreIssued services issued answers t s
    pub connected : IsConnected s.hosts (jobs_in t s)

  pub record Reaches (n : ℕ) (t : Text) (s s' : State W C) : Type 0 where
    pub reached : count t s' ≡ n
    pub grows : Grows services issued answers s s'
    pub leaves : Leaves t s s'

  IsReady-Leaves :
      (t name : Text) (s s' : State W C)
      → t ≢ name
      → Leaves name s s'
      → Grows services issued answers s s'
      → IsReady t s
      → IsReady t s'
  IsReady-Leaves t name s s' ne l g r = record {
    unique = rw (l.others t ne) r.unique;
    issues = λ k j h. g k.1 (r.issues k j (ap (Map.get k) (sym (l.others t ne)) ∙ h));
    connected = rw (l.others t ne, l.hosts) r.connected;
  }

  remove-Reaches :
      (k : ℕ) (t : Text) (s : State W C)
      → IsReady t s
      → (s' : State W C) × (remove services (suc k) t s ≡ done s')
        × Reaches (count t s - suc k) t s s'
  unfolding remove
  remove-Reaches k t s r =
      let (s', run, left, frame) =
        remove_drops services (suc k) t s r.unique r.connected (omega arith) in
      (
        s',
        run,
        record {
          reached = ap length left ∙ length-drop (suc k) (jobs_in t s);
          grows = stop_each-Grows (suc k) 0 t (Map.keys (jobs_in t s)) s s' run;
          leaves = frame;
        },
      )

  -- One type's count becomes the expected number, or 0 where that is negative.
  adjust-Reaches :
      (z : ℤ) (t image : Text) (s : State W C)
      → docker_image services.parse_url s.self.artifact.uri ≡ some image
      → IsReady t s
      → (s' : State W C) × (adjust services (minus_ℕ z (count t s)) t s ≡ done s')
        × Reaches (pos_part z) t s s'
  unfolding adjust
  adjust-Reaches z t image s im r = by (minus_ℕ z (count t s)) refl
    where
      by :
          (d : ℤ)
          → minus_ℕ z (count t s) ≡ d
          → (s' : State W C) × (adjust services d t s ≡ done s') × Reaches (pos_part z) t s s'
      by (pos zero) e = (
        s,
        refl,
        record {
          reached = omega (arith, minus_ℕ-eq-pos z (count t s) 0 e);
          grows = λ id h. h;
          leaves = Leaves-refl t s;
        },
      )
      by (pos (suc k)) e =
          let (config, c) = config_of_image services s.self t image im in
          let (s', run, added) =
            add-Added services issued answers (suc k) t config s c r.unique r.issues in
          (
            s',
            run,
            record {
              reached = omega (arith, minus_ℕ-eq-pos z (count t s) (suc k) e, added.counted);
              grows = added.grows;
              leaves = added.leaves;
            },
          )
      by (negsuc k) e =
          let (s', run, reaches) = remove-Reaches k t s r in
          (s', run, rw (minus_ℕ-eq-negsuc z (count t s) k e) at reaches)

  -- The state after the loop over `todo`, from `s`.
  pub record Updated (todo : Map Text ℤ) (s s' : State W C) : Type 0 where
    pub hit : (t : Text) (z : ℤ) → Map.get t todo ≡ some z → count t s' ≡ pos_part z
    pub missed : (t : Text) → Map.get t todo ≡ none → jobs_in t s' ≡ jobs_in t s
    pub grows : Grows services issued answers s s'
    pub hosts : s'.hosts ≡ s.hosts
    pub artifact : s'.self.artifact ≡ s.self.artifact
    pub processes : s'.self.processes ≡ s.self.processes

  Updated-cons :
      (t : Text) (z : ℤ) (todo : Map Text ℤ) {s s1 s2 : State W C}
      → Map.get t todo ≡ none
      → Reaches (pos_part z) t s s1
      → Updated todo s1 s2
      → Updated ((t, z) ∷ todo) s s2
  Updated-cons t z todo {s} {s1} {s2} new one rest = record {
    hit = λ x y h. elim (eq_cases t x) [
      | inl same ↦ hit_head x y same h
      | inr other ↦ rest.hit x y (sym (get_tail t x z todo other) ∙ h)
    ];
    missed = λ x h. elim (eq_cases t x) [
      | inl same ↦ cc (get_head t z todo, ap (λ k. Map.get k ((t, z) ∷ todo)) same, h)
      | inr other ↦
          rest.missed x (sym (get_tail t x z todo other) ∙ h)
          ∙ one.leaves.others x (λ e. other (sym e))
    ];
    grows = λ id h. rest.grows id (one.grows id h);
    hosts = rest.hosts ∙ one.leaves.hosts;
    artifact = rest.artifact ∙ one.leaves.artifact;
    processes = rest.processes ∙ one.leaves.processes;
  }
    where
      hit_head :
          (x : Text) (y : ℤ) → t ≡ x → Map.get x ((t, z) ∷ todo) ≡ some y → count x s2 ≡ pos_part y
      hit_head x y same h =
          let z_y : z ≡ y = cc (get_head t z todo, ap (λ k. Map.get k ((t, z) ∷ todo)) same, h) in
          rw (← same) (ap length (rest.missed t new) ∙ one.reached ∙ ap pos_part z_y)

  -- The first loop of `rectify`: the types in `todo` get their counts, and others keep their jobs.
  pub update_counts_lem :
      (image : Text) (todo : Map Text ℤ) (s : State W C)
      → docker_image services.parse_url s.self.artifact.uri ≡ some image
      → IsUnique todo
      → ((t : Text) (z : ℤ) → Map.get t todo ≡ some z → IsReady t s)
      → (s' : State W C) × (update_counts services todo s ≡ done s') × Updated todo s s'
  unfolding update_counts
  update_counts_lem image [] s im u ready = (
    s,
    refl,
    record {
      hit = λ t z h. cc (get-empty {V = ℤ} t);
      missed = λ t h. refl;
      grows = λ id h. h;
      hosts = refl;
      artifact = refl;
      processes = refl;
    },
  )
  update_counts_lem image ((t, z) ∷ todo) s im u ready =
      let (s1, run, one) = adjust-Reaches z t image s im (ready t z (get_head t z todo)) in
      let later = λ (x : Text) (y : ℤ) (h : Map.get x todo ≡ some y).
        let other : t ≢ x = λ e. cc (u.0, ap (λ k. Map.get k todo) e, h) in
        IsReady-Leaves x t s s1 (λ e. other (sym e)) one.leaves one.grows
          (ready x y (get_tail t x z todo other ∙ h)) in
      let (s2, runs, rest) =
        update_counts_lem image todo s1
          (ap (λ (a : Artifact). docker_image services.parse_url a.uri) one.leaves.artifact ∙ im)
          u.1 later in
      (s2, rw run runs, Updated-cons t z todo u.0 one rest)
