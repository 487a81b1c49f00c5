-- ===== src/Scheduler/Removing.antt =====
-- `remove` of scheduler/main.go: which jobs it stops, and what is left.
use flynn_controller.Prelude.{
  ℕ, zero, suc, ◌+◌, ◌-◌, ◌<◌, ◌≡◌, refl, sym, ap, ◌∙◌, true, false, Option, some, [], ◌∷◌, Text,
  text_eq, pair_eq, beq_refl, nat_eqb, drop-nil, drop, drop_all, arith, inl, inr, Bool-cases,
}
use flynn_controller.Prelude.Map
use flynn_controller.Prelude.Map.{Map, IsUnique, delete_head}
use flynn_controller.Scheduler.State.{JobKey, Job, Services, State, done}
use flynn_controller.Scheduler.HostClients
use flynn_controller.Scheduler.Method.{unregister, stop, stop_each, remove}
use flynn_controller.Scheduler.Counts.{
  jobs_in, count, Leaves, Leaves-refl, Leaves-trans, Leaves-world, jobs_in-unregister,
  Leaves-unregister,
}

-- The hosts of all jobs have a connection.
abbrev pub IsConnected : {C : Type 0} → Map Text (Option C) → Map JobKey Job → Type 0
IsConnected hosts [] = Unit
IsConnected {C} hosts ((k, j) ∷ m) =
    ((c : C) × (HostClients.get k.0 hosts ≡ some c)) × IsConnected hosts m

module _ {W C : Type 0} (services : Services W C) where
  -- The first job of the iteration is stopped and taken out.
  stop_head :
      (name : Text) (k : JobKey) (j : Job) (m : Map JobKey Job) (s : State W C)
      → jobs_in name s ≡ (k, j) ∷ m
      → IsUnique ((k, j) ∷ m)
      → IsConnected s.hosts ((k, j) ∷ m)
      → (s' : State W C) × (stop services name k s ≡ done s')
        × (jobs_in name s' ≡ m)
        × Leaves name s s'
  unfolding stop
  stop_head name (host, id) j m s e u ((c, con), rest) =
      let w = (services.stop_job c id s.world).1 in
      let s1 : State W C = record s { world = w } in
      (
        unregister name host id s1,
        rw (con, stop),
        ground (
          arith,
          jobs_in-unregister name host id name s1,
          delete_head (host, id) j m u.0,
          beq_refl name,
        ),
        Leaves-trans (Leaves-world name s s.watches w) (Leaves-unregister name host id s1),
      )

  stop_each_lem :
      (n i : ℕ) (name : Text) (m : Map JobKey Job) (s : State W C)
      → jobs_in name s ≡ m
      → IsUnique m
      → IsConnected s.hosts m
      → i < n
      → (s' : State W C) × (stop_each services n i name (Map.keys m) s ≡ done s')
        × (jobs_in name s' ≡ drop (n - i) m)
        × Leaves name s s'
  unfolding stop_each Map.keys
  stop_each_lem n i name [] s e u con lt = (s, refl, e ∙ sym (drop-nil (n - i)), Leaves-refl name s)
  stop_each_lem n i name ((k, j) ∷ m) s e u con lt =
      let (s1, run, left, frame) = stop_head name k j m s e u con in
      elim (Bool-cases (nat_eqb (i + 1) n)) [
        | inl last ↦ (s1, rw (run, last), rw (one last) left, frame)
        | inr more ↦
            let (s2, runs, rest, frames) =
              stop_each_lem n (i + 1) name m s1 left u.1 (rw frame.hosts con.1) (ground arith) in
            (s2, rw (run, more) runs, rw (step more) rest, Leaves-trans frame frames)
      ]
    where
      one : nat_eqb (i + 1) n ≡ true → n - i ≡ suc zero
      one last = ground arith

      step : nat_eqb (i + 1) n ≡ false → n - i ≡ suc (n - (i + 1))
      step more = ground arith

  minus_zero : (n : ℕ) → n - 0 ≡ n
  minus_zero n = omega arith

  pub remove_drops :
      (n : ℕ) (name : Text) (s : State W C)
      → IsUnique (jobs_in name s)
      → IsConnected s.hosts (jobs_in name s)
      → 0 < n
      → (s' : State W C) × (remove services n name s ≡ done s')
        × (jobs_in name s' ≡ drop n (jobs_in name s))
        × Leaves name s s'
  unfolding remove
  remove_drops n name s u con pos =
      let (s', run, left, frame) = stop_each_lem n 0 name (jobs_in name s) s refl u con pos in
      (s', run, rw (minus_zero n) at left, frame)

  remove_none :
      (n : ℕ) (name : Text) (s : State W C)
      → jobs_in name s ≡ []
      → remove services n name s ≡ done s
  unfolding remove Map.keys stop_each
  remove_none n name s e = rw (ap Map.keys e)

  -- `remove` with the whole count of a type, which may be 0, leaves no job of it.
  pub remove_all :
      (name : Text) (s : State W C)
      → IsUnique (jobs_in name s)
      → IsConnected s.hosts (jobs_in name s)
      → (s' : State W C) × (remove services (count name s) name s ≡ done s')
        × (jobs_in name s' ≡ [])
        × Leaves name s s'
  remove_all name s u con = remove_count (jobs_in name s) refl
    where
      remove_count :
          (m : Map JobKey Job)
          → jobs_in name s ≡ m
          → (s' : State W C) × (remove services (count name s) name s ≡ done s')
            × (jobs_in name s' ≡ [])
            × Leaves name s s'
      remove_count [] e = (s, remove_none (count name s) name s e, e, Leaves-refl name s)
      remove_count (x ∷ m) e =
          let (s', run, left, frame) =
            remove_drops (count name s) name s u con (rw e (omega arith)) in
          (s', run, left ∙ drop_all (jobs_in name s), frame)
