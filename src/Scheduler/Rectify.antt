-- ===== src/Scheduler/Rectify.antt =====
-- `rectify` of scheduler/main.go as a whole: both loops, and what they reach.
use flynn_controller.Prelude.{
  ◌≡◌, ◌≢◌, ◌⊎◌, refl, sym, ap, ◌∙◌, Bool, true, none, some, List, [], ◌∷◌, Text, text_eq, pair_eq,
  eq_cases, length, All, All-IsIn, IsIn, inl, inr, Option-cases, ℤ,
}
use flynn_controller.Prelude.Map
use flynn_controller.Prelude.Map.{
  Map, IsUnique, get-IsIn, get-empty, get-entry, has_of_some, has_of_none,
}
use flynn_controller.Utils.{docker_image}
use flynn_controller.Scheduler.State.{JobKey, Job, Services, State, done}
use flynn_controller.Scheduler.JobTypes.{jobs_of}
use flynn_controller.Scheduler.Method.{remove_types, rectify}
use flynn_controller.Scheduler.Counts.{jobs_in, count, Leaves}
use flynn_controller.Scheduler.Removing.{IsConnected, remove_all}
use flynn_controller.Scheduler.Adding.{Answers}
use flynn_controller.Scheduler.Converging.{IsReady, Updated, target, update_counts_lem}

jobs_of-cases :
    {W C : Type 0} (t : Text) (s : State W C) → (jobs_in t s ≡ []) ⊎ IsIn t (Map.keys s.self.jobs)
unfolding jobs_of
jobs_of-cases t s = elim (Option-cases (Map.get t s.self.jobs)) [
  | inl absent ↦ inl (rw (absent, jobs_of))
  | inr (m, present) ↦ inr (get-IsIn t m s.self.jobs present)
]

module _ {W C : Type 0} (services : Services W C) where
  -- The state after the second loop, from `s`.
  record Cleaned (s s' : State W C) : Type 0 where
    emptied : (t : Text) → Map.get t s.self.processes ≡ none → jobs_in t s' ≡ []
    kept : (t : Text) (z : ℤ) → Map.get t s.self.processes ≡ some z → jobs_in t s' ≡ jobs_in t s

  abbrev IsRemovable : Text → State W C → Type 0
  IsRemovable t s = IsUnique (jobs_in t s) × IsConnected s.hosts (jobs_in t s)

  -- Every type that is to go has no jobs or is still to come.
  abbrev Covers : List Text → State W C → Type 0
  Covers ts s = (t : Text) → Map.get t s.self.processes ≡ none → (jobs_in t s ≡ []) ⊎ IsIn t ts

  Covers-tail :
      (x t : Text) (ts : List Text) (s s1 : State W C)
      → Covers (x ∷ ts) s
      → (t ≢ x → jobs_in t s1 ≡ jobs_in t s)
      → (t ≡ x → jobs_in t s1 ≡ [])
      → Map.get t s.self.processes ≡ none
      → (jobs_in t s1 ≡ []) ⊎ IsIn t ts
  Covers-tail x t ts s s1 covers others this h = elim (eq_cases t x) [
    | inl same ↦ inl (this same)
    | inr other ↦ elim (covers t h) [
      | inl e ↦ inl (others other ∙ e)
      | inr i ↦ elim i [ inl same ↦ absurd (other same) | inr later ↦ inr later ]
    ]
  ]

  IsRemovable-Leaves :
      (x t : Text) (s s1 : State W C)
      → Leaves x s s1
      → jobs_in x s1 ≡ []
      → IsRemovable t s
      → IsRemovable t s1
  IsRemovable-Leaves x t s s1 frame left r = elim (eq_cases t x) [
    | inl same ↦ rw (same, left) (tt, tt)
    | inr other ↦ (rw (frame.others t other) r.0, rw (frame.others t other, frame.hosts) r.1)
  ]

  Cleaned-cons :
      (x : Text) (s s1 s' : State W C)
      → Map.get x s.self.processes ≡ none
      → Leaves x s s1
      → Cleaned s1 s'
      → Cleaned s s'
  Cleaned-cons x s s1 s' absent frame c = record {
    emptied = λ t h. c.emptied t (ap (Map.get t) frame.processes ∙ h);
    kept = λ t z h.
        let other : t ≢ x = λ e. cc (ap (λ k. Map.get k s.self.processes) e, absent, h) in
        c.kept t z (ap (Map.get t) frame.processes ∙ h) ∙ frame.others t other;
  }

  remove_types_lem :
      (ts : List Text) (s : State W C)
      → Covers ts s
      → ((t : Text) → Map.get t s.self.processes ≡ none → IsRemovable t s)
      → (s' : State W C) × (remove_types services ts s ≡ done s') × Cleaned s s'
  unfolding remove_types
  remove_types_lem [] s covers ready = (
    s,
    refl,
    record {
      emptied = λ t h. elim (covers t h) [ inl e ↦ e | inr i ↦ absurd i ];
      kept = λ t z h. refl;
    },
  )
  remove_types_lem (x ∷ ts) s covers ready = elim (Option-cases (Map.get x s.self.processes)) [
    | inr (z, present) ↦
        let covers' : Covers ts s = λ t h.
          Covers-tail x t ts s s covers (λ _. refl)
            (λ same. cc (ap (λ k. Map.get k s.self.processes) same, present, h)) h in
        let (s', run, cleaned) = remove_types_lem ts s covers' ready in
        (s', rw (has_of_some x s.self.processes present) run, cleaned)
    | inl absent ↦
        let (u, con) = ready x absent in
        let (s1, run, left, frame) = remove_all services x s u con in
        let back = λ (t : Text) (h : Map.get t s1.self.processes ≡ none).
          ap (Map.get t) (sym frame.processes) ∙ h in
        let (s', runs, cleaned) =
          remove_types_lem ts s1
            (λ t h.
              Covers-tail x t ts s s1 covers (frame.others t)
                (λ same. ap (λ k. jobs_in k s1) same ∙ left) (back t h))
            (λ t h. IsRemovable-Leaves x t s s1 frame left (ready t (back t h))) in
        (
          s',
          rw (has_of_none x s.self.processes absent, run) runs,
          Cleaned-cons x s s1 s' absent frame cleaned,
        )
  ]

module _ {W C : Type 0} (services : Services W C) (issued : W → Text → Bool)
    (answers : Answers services issued) where
  -- What both loops together make of the count of a type.
  count-target :
      (t : Text) (s s1 s2 : State W C)
      → Updated services issued answers s.self.processes s s1
      → Cleaned services s1 s2
      → count t s2 ≡ target t s.self.processes
  unfolding target
  count-target t s s1 s2 updated cleaned = elim (Option-cases (Map.get t s.self.processes)) [
    | inl absent ↦
        rw (absent, target)
          (ap length (cleaned.emptied t (ap (Map.get t) updated.processes ∙ absent)))
    | inr (z, present) ↦
        rw (present, target)
          (ap length (cleaned.kept t z (ap (Map.get t) updated.processes ∙ present))
            ∙ updated.hit t z present)
  ]

module _ {W C : Type 0} (services : Services W C) (issued : W → Text → Bool)
    (answers : Answers services issued) where
  -- What makes the jobs of one type ready.
  abbrev pub AreReady : State W C → Map JobKey Job → Type 0
  AreReady s m =
      IsUnique m
      × ((k : JobKey) (j : Job) → Map.get k m ≡ some j → issued s.world k.1 ≡ true)
      × IsConnected s.hosts m

  pub IsReady-of_entries :
      (s : State W C)
      → All (λ (p : Text × Map JobKey Job). AreReady s p.1) s.self.jobs
      → (t : Text) → IsReady services issued answers t s
  unfolding jobs_of
  IsReady-of_entries s all t = elim (Option-cases (Map.get t s.self.jobs)) [
    | inl absent ↦
        let none_left : jobs_in t s ≡ [] = rw (absent, jobs_of) in
        record {
          unique = rw none_left tt;
          issues = λ k j h. cc (get-empty {V = Job} k, ap (Map.get k) none_left, h);
          connected = rw none_left tt;
        }
    | inr (m, present) ↦
        let found : jobs_in t s ≡ m = rw (present, jobs_of) in
        let (u, i, con) =
          All-IsIn (λ (p : Text × Map JobKey Job). AreReady s p.1) (t, m) s.self.jobs all
            (get-entry t m s.self.jobs present) in
        record {
          unique = rw found u;
          issues = λ k j h. i k j (ap (Map.get k) (sym found) ∙ h);
          connected = rw found con;
        }
  ]

-- When the services answer, the artifact has an image, the jobs' identifiers were drawn and their
-- hosts are connected, `rectify` returns, and then each process type has as many jobs as
-- `Processes` asks for: none where the number is negative or the type is not listed.
pub rectify_converges :
    {W C : Type 0} (services : Services W C) (issued : W → Text → Bool)
    (answers : Answers services issued) (image : Text) (s : State W C)
    → docker_image services.parse_url s.self.artifact.uri ≡ some image
    → IsUnique s.self.processes
    → ((t : Text) → IsReady services issued answers t s)
    → (s' : State W C) × (rectify services s ≡ done s')
      × ((t : Text) → count t s' ≡ target t s.self.processes)
unfolding rectify target
rectify_converges services issued answers image s im u ready =
    let (s1, run, updated) =
      update_counts_lem services issued answers image s.self.processes s im u (λ t z h. ready t) in
    let removable = λ (t : Text) (h : Map.get t s1.self.processes ≡ none).
      let same = updated.missed t (ap (Map.get t) (sym updated.processes) ∙ h) in
      let pair : IsUnique (jobs_in t s1) × IsConnected s1.hosts (jobs_in t s1) =
        (rw same (ready t).unique, rw (same, updated.hosts) (ready t).connected) in
      pair in
    let (s2, runs, cleaned) =
      remove_types_lem services (Map.keys s1.self.jobs) s1 (λ t h. jobs_of-cases t s1) removable in
    (s2, rw run runs, λ t. count-target services issued answers t s s1 s2 updated cleaned)
