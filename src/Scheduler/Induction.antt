-- ===== src/Scheduler/Induction.antt =====
-- What every placed job and every stopped job keeps, the methods of scheduler/main.go keep.
use flynn_controller.Prelude.{
  ℕ, zero, suc, ◌+◌, ◌≡◌, true, false, Option, List, [], ◌∷◌, Text, text_eq, nat_eqb, ℤ, pos,
  negsuc, minus_ℕ, length, subst,
}
use flynn_controller.Prelude.Map
use flynn_controller.Prelude.Map.{Map}
use flynn_controller.Types.{HostJob}
use flynn_controller.Scheduler.State.{JobKey, Services, State, Outcome, done, panic, ◌>>=◌}
use flynn_controller.Scheduler.JobTypes.{jobs_of}
use flynn_controller.Scheduler.Method.{
  place, place_all, config_of, add, stop, stop_each, remove, adjust, update_counts, remove_types,
  rectify,
}

-- An outcome that satisfies `P` if it is a state.
abbrev pub Holds : {S : Type 0} → (S → Type 0) → Outcome S → Type 0
Holds P (done s) = P s
Holds P (panic e) = Unit

pub Holds-done :
    {S : Type 0} (P : S → Type 0) (o : Outcome S) {s : S} → Holds P o → o ≡ done s → P s
Holds-done P o h e = subst (Holds P) e h

pub Holds-bind :
    {S : Type 0} (P : S → Type 0) (o : Outcome S) (f : S → Outcome S)
    → Holds P o
    → ((s : S) → P s → Holds P (f s))
    → Holds P (o >>= f)
Holds-bind P (done s) f h k = k s h
Holds-bind P (panic e) f h k = tt

module _ {W C : Type 0} (services : Services W C) (P : State W C → Type 0)
    (place-P : (name : Text) (config : Option HostJob) (s : State W C)
      → P s
      → Holds P (place services name config s))
    (stop-P : (name : Text) (k : JobKey) (s : State W C)
      → P s
      → Holds P (stop services name k s)) where
  place_all-Holds :
      (n : ℕ) (name : Text) (config : Option HostJob) (s : State W C)
      → P s
      → Holds P (place_all services n name config s)
  unfolding place_all
  place_all-Holds zero name config s h = h
  place_all-Holds (suc n) name config s h =
      Holds-bind P (place services name config s) (place_all services n name config)
        (place-P name config s h) (place_all-Holds n name config)

  stop_each-Holds :
      (n i : ℕ) (name : Text) (ks : List JobKey) (s : State W C)
      → P s
      → Holds P (stop_each services n i name ks s)
  unfolding stop_each
  stop_each-Holds n i name [] s h = h
  stop_each-Holds n i name (k ∷ ks) s h =
      Holds-bind P (stop services name k s) _ (stop-P name k s h) λ s' h'.
        elim (nat_eqb (i + 1) n)
          as (λ b.
            Holds P (elim b [ true ↦ done s' | false ↦ stop_each services n (i + 1) name ks s' ])) [
              | true ↦ h'
              | false ↦ stop_each-Holds n (i + 1) name ks s' h'
            ]

  pub remove-Holds :
      (n : ℕ) (name : Text) (s : State W C) → P s → Holds P (remove services n name s)
  unfolding remove
  remove-Holds n name s = stop_each-Holds n 0 name (Map.keys (jobs_of name s.self.jobs)) s

  adjust-Holds : (d : ℤ) (t : Text) (s : State W C) → P s → Holds P (adjust services d t s)
  unfolding adjust add
  adjust-Holds (pos zero) t s h = h
  adjust-Holds (pos (suc n)) t s h = place_all-Holds (suc n) t (config_of services s.self t) s h
  adjust-Holds (negsuc n) t s h = remove-Holds (suc n) t s h

  update_counts-Holds :
      (todo : Map Text ℤ) (s : State W C) → P s → Holds P (update_counts services todo s)
  unfolding update_counts
  update_counts-Holds [] s h = h
  update_counts-Holds ((t, z) ∷ todo) s h =
      Holds-bind P (adjust services (minus_ℕ z (length (jobs_of t s.self.jobs))) t s)
        (update_counts services todo)
        (adjust-Holds (minus_ℕ z (length (jobs_of t s.self.jobs))) t s h) (update_counts-Holds todo)

  remove_types-Holds : (ts : List Text) (s : State W C) → P s → Holds P (remove_types services ts s)
  unfolding remove_types
  remove_types-Holds [] s h = h
  remove_types-Holds (t ∷ ts) s h =
      Holds-bind P
        (elim (Map.has t s.self.processes) [
          | true ↦ done s
          | false ↦ remove services (length (jobs_of t s.self.jobs)) t s
        ])
        (remove_types services ts)
        (elim (Map.has t s.self.processes)
          as (λ b. Holds P (elim b [
            | true ↦ done s
            | false ↦ remove services (length (jobs_of t s.self.jobs)) t s
          ])) [ true ↦ h | false ↦ remove-Holds (length (jobs_of t s.self.jobs)) t s h ])
        (remove_types-Holds ts)

  pub rectify-Holds : (s : State W C) → P s → Holds P (rectify services s)
  unfolding rectify
  rectify-Holds s h =
      Holds-bind P (update_counts services s.self.processes s)
        (λ s'. remove_types services (Map.keys s'.self.jobs) s')
        (update_counts-Holds s.self.processes s h)
        (λ s'. remove_types-Holds (Map.keys s'.self.jobs) s')
