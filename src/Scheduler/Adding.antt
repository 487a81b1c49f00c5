-- ===== src/Scheduler/Adding.antt =====
-- `add` of scheduler/main.go when the services answer: every call starts one job more of its type.
use flynn_controller.Prelude.{
  ℕ, zero, suc, ◌+◌, ◌≡◌, ◌≢◌, refl, sym, ap, ◌∙◌, Bool, true, false, none, some, List, [], ◌∷◌,
  ◌++◌, Text, text_eq, pair_eq, beq_refl, eq_cases, length, arith, inl, inr, Option-cases,
}
use flynn_controller.Prelude.Map
use flynn_controller.Prelude.Map.{
  Map, IsUnique, put-put, length-put, put-IsUnique, get-put_ne, put-ne-nil,
}
use flynn_controller.Types.{Host, HostJob}
use flynn_controller.Scheduler.State.{JobKey, Job, Formation, Services, State, done}
use flynn_controller.Scheduler.Method.{
  host_counts, insert_host, sort_hosts, pick_host, host_at, register, submit, place, place_all, add,
  config_of,
}
use flynn_controller.Scheduler.Counts.{
  jobs_in, count, Leaves, Leaves-refl, Leaves-trans, Leaves-world, jobs_in-register,
  Leaves-register, registered,
}

insert_host-ne-nil : (h : Text × ℕ) (sh : List (Text × ℕ)) → insert_host h sh ≢ []
unfolding insert_host
insert_host-ne-nil h [] = λ e. cc
insert_host-ne-nil h (g ∷ sh) = λ e. ground arith

sort_hosts-ne-nil : (counts : Map Text ℕ) → counts ≢ [] → sort_hosts counts ≢ []
unfolding sort_hosts
sort_hosts-ne-nil [] h = h
sort_hosts-ne-nil (c ∷ counts) h = insert_host-ne-nil c (sort_hosts counts)

host_counts-ne-nil :
    (f : Formation) (name : Text) (hosts : Map Text Host) (counts : Map Text ℕ)
    → counts ≢ []
    → host_counts f name hosts counts ≢ []
unfolding host_counts
host_counts-ne-nil f name [] counts h = h
host_counts-ne-nil f name ((k, host) ∷ hosts) counts h =
    host_counts-ne-nil f name hosts _ (put-ne-nil host.id _ counts)

pub sort_host_counts-ne-nil :
    (f : Formation) (name : Text) (hosts : Map Text Host)
    → hosts ≢ []
    → sort_hosts (host_counts f name hosts []) ≢ []
unfolding host_counts
sort_host_counts-ne-nil f name [] h = absurd (h refl)
sort_host_counts-ne-nil f name ((k, host) ∷ hosts) h =
    sort_hosts-ne-nil _ (host_counts-ne-nil f name hosts _ (put-ne-nil host.id _ []))

-- Some host is picked when there is one.
pub pick_host_total :
    (f : Formation) (name : Text) (hosts : Map Text Host)
    → hosts ≢ []
    → (h : Host) × (pick_host f name hosts ≡ done h)
unfolding pick_host
pick_host_total f name hosts h = pick (sort_hosts (host_counts f name hosts [])) refl
  where
    pick :
        (sh : List (Text × ℕ))
        → sort_hosts (host_counts f name hosts []) ≡ sh
        → (g : Host) × (pick_host f name hosts ≡ done g)
    pick [] e = absurd (sort_host_counts-ne-nil f name hosts h e)
    pick (least ∷ rest) e = (host_at least.0 hosts, rw (e, pick_host))

-- What `add` needs of the services: hosts are listed, jobs are accepted, and an identifier is not
-- drawn twice. `issued w id` says that `id` was drawn before the world came to `w`.
pub record Answers {W C : Type 0} (services : Services W C) (issued : W → Text → Bool)
    : Type 0 where
  pub listed : (w : W) → (services.list_hosts w).0 ≢ []
  pub accepted : (host : Text) (job : HostJob) (w : W) → (services.add_jobs host job w).0 ≡ false
  pub fresh : (w : W) → issued w (services.random_job_id w).0 ≡ false
  pub drawn : (w : W) → issued (services.random_job_id w).1 (services.random_job_id w).0 ≡ true
  pub keeps_draw :
      (w : W) (id : Text) → issued w id ≡ true → issued (services.random_job_id w).1 id ≡ true
  pub keeps_list :
      (w : W) (id : Text) → issued w id ≡ true → issued (services.list_hosts w).2 id ≡ true
  pub keeps_add :
      (host : Text) (job : HostJob) (w : W) (id : Text)
      → issued w id ≡ true
      → issued (services.add_jobs host job w).1 id ≡ true
  pub keeps_stop :
      (c : C) (job : Text) (w : W) (id : Text)
      → issued w id ≡ true
      → issued (services.stop_job c job w).1 id ≡ true

module _ {W C : Type 0} (services : Services W C) (issued : W → Text → Bool)
    (answers : Answers services issued) where
  open answers use {listed, accepted, fresh, drawn, keeps_draw, keeps_list, keeps_add}

  -- The identifiers of the jobs of a type were drawn.
  abbrev pub AreIssued : Text → State W C → Type 0
  AreIssued name s =
      (k : JobKey) (j : Job) → Map.get k (jobs_in name s) ≡ some j → issued s.world k.1 ≡ true

  abbrev pub Grows : State W C → State W C → Type 0
  Grows s s' = (id : Text) → issued s.world id ≡ true → issued s'.world id ≡ true

  pub record Added (n : ℕ) (name : Text) (s s' : State W C) : Type 0 where
    pub counted : count name s' ≡ count name s + n
    pub unique : IsUnique (jobs_in name s')
    pub issues : AreIssued name s'
    pub grows : Grows s s'
    pub leaves : Leaves name s s'

  Added-zero :
      (name : Text) (s : State W C)
      → IsUnique (jobs_in name s)
      → AreIssued name s
      → Added 0 name s s
  Added-zero name s u i = record {
    counted = omega arith;
    unique = u;
    issues = i;
    grows = λ id h. h;
    leaves = Leaves-refl name s;
  }

  Added-suc :
      (n : ℕ) (name : Text) {s t u : State W C}
      → Added 1 name s t
      → Added n name t u
      → Added (suc n) name s u
  Added-suc n name p q = record {
    counted = omega (arith, p.counted, q.counted);
    unique = q.unique;
    issues = q.issues;
    grows = λ id h. q.grows id (p.grows id h);
    leaves = Leaves-trans p.leaves q.leaves;
  }

  submit_accepted :
      (name host : Text) (config : HostJob) (s : State W C)
      → submit services name host config s ≡ record (register name host config.id s) {
        world = (services.add_jobs host config s.world).1;
      }
  unfolding submit register
  submit_accepted name host config s = rw (accepted, submit)

  issued-put :
      (name : Text) (key k : JobKey) (job j : Job) (s : State W C)
      → AreIssued name s
      → issued s.world key.1 ≡ true
      → Map.get k (Map.put key job (jobs_in name s)) ≡ some j
      → issued s.world k.1 ≡ true
  issued-put name key k job j s i drew h = elim (eq_cases key k) [
    | inl same ↦ rw (← same) drew
    | inr other ↦ i k j (sym (get-put_ne key k job (jobs_in name s) other) ∙ h)
  ]

  -- A job with a new identifier is registered and accepted.
  submit-Added :
      (name host : Text) (config : HostJob) (s : State W C)
      → IsUnique (jobs_in name s)
      → AreIssued name s
      → Map.get (host, config.id) (jobs_in name s) ≡ none
      → issued s.world config.id ≡ true
      → Added 1 name s (submit services name host config s)
  unfolding register
  submit-Added name host config s u i new drew =
      let key : JobKey = (host, config.id) in
      let job = registered name s in
      let w = (services.add_jobs host config s.world).1 in
      let s1 = register name host config.id s in
      let put_job : jobs_in name s1 ≡ Map.put key job (jobs_in name s) =
        jobs_in-register name host config.id name s ∙ rw beq_refl in
      rw submit_accepted (record {
        counted = omega (arith, ap length put_job, length-put key job (jobs_in name s) new);
        unique = rw put_job (put-IsUnique key job (jobs_in name s) u);
        issues = λ k j h.
            keeps_add host config s.world k.1
              (issued-put name key k job j s i drew (ap (Map.get k) (sym put_job) ∙ h));
        grows = λ id h. keeps_add host config s.world id h;
        leaves =
            Leaves-trans (Leaves-register name host config.id s) (Leaves-world name s1 s.watches w);
      })

  place-Added :
      (name : Text) (config : HostJob) (s : State W C)
      → IsUnique (jobs_in name s)
      → AreIssued name s
      → (s' : State W C) × (place services name (some config) s ≡ done s') × Added 1 name s s'
  unfolding place
  place-Added name config s u i =
      let id = (services.random_job_id s.world).0 in
      let w1 = (services.random_job_id s.world).1 in
      let hosts = (services.list_hosts w1).0 in
      let w2 = (services.list_hosts w1).2 in
      let (h, picked) = pick_host_total s.self name hosts (listed w1) in
      let s1 : State W C = record s { watches = s.watches ++ h.id ∷ []; world = w2 } in
      let grows =
        λ (j : Text) (e : issued s.world j ≡ true). keeps_list w1 j (keeps_draw s.world j e) in
      let new : Map.get (h.id, id) (jobs_in name s) ≡ none =
        elim (Option-cases (Map.get (h.id, id) (jobs_in name s))) [
          | inl absent ↦ absent
          | inr (j, present) ↦ cc (i (h.id, id) j present, fresh s.world)
        ] in
      let added =
        submit-Added name h.id (record config { id = id }) s1 u (λ k j e. grows k.1 (i k j e)) new
          (keeps_list w1 id (drawn s.world)) in
      (
        submit services name h.id (record config { id = id }) s1,
        rw (picked, place),
        record {
          counted = added.counted;
          unique = added.unique;
          issues = added.issues;
          grows = λ j e. added.grows j (grows j e);
          leaves = Leaves-trans (Leaves-world name s (s.watches ++ h.id ∷ []) w2) added.leaves;
        },
      )

  place_all-Added :
      (n : ℕ) (name : Text) (config : HostJob) (s : State W C)
      → IsUnique (jobs_in name s)
      → AreIssued name s
      → (s' : State W C) × (place_all services n name (some config) s ≡ done s') × Added n name s s'
  unfolding place_all
  place_all-Added zero name config s u i = (s, refl, Added-zero name s u i)
  place_all-Added (suc n) name config s u i =
      let (s1, run, one) = place-Added name config s u i in
      let (s2, runs, more) = place_all-Added n name config s1 one.unique one.issues in
      (s2, rw run runs, Added-suc n name one more)

  -- `add` starts `n` jobs of the type when the configuration of the job can be built.
  pub add-Added :
      (n : ℕ) (name : Text) (config : HostJob) (s : State W C)
      → config_of services s.self name ≡ some config
      → IsUnique (jobs_in name s)
      → AreIssued name s
      → (s' : State W C) × (add services n name s ≡ done s') × Added n name s s'
  unfolding add
  add-Added n name config s e u i = rw e (place_all-Added n name config s u i)
