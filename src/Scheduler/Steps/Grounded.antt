-- ===== src/Scheduler/Steps/Grounded.antt =====
-- The pointers of scheduler/main.go to formations: in the table of formations, in the jobs, and in
-- the goroutines that wait.
use flynn_controller.Prelude.{
  ℕ, ◌≤◌, ◌<◌, ◌≡◌, none, some, text_eq, pair_eq, nat_eq, arith, length, All, All-map,
}
use flynn_controller.Prelude.Map.{Map}
use flynn_controller.Scheduler.State.{JobKey, Job, Addr}
use flynn_controller.Scheduler.Context.{Context, Task, rectify_formation, remove_from, watch}

-- The job's formation is set, and in the heap of `n` formations.
pub data IsOwned (n : ℕ) (j : Job) : Type 0 where
  owned : (a : Addr) → j.formation ≡ some a → a < n → IsOwned n j

-- The formation of the goroutine is in the heap of `n` formations.
abbrev pub IsGroundedTask : ℕ → Task → Type 0
IsGroundedTask n (rectify_formation locked a) = a < n
IsGroundedTask n (remove_from none typ host id) = ⊥
IsGroundedTask n (remove_from (some a) typ host id) = a < n
IsGroundedTask n (watch id) = Unit

abbrev pub AreOwned : ℕ → Map JobKey Job → Type 0
AreOwned n jobs = All (λ (e : JobKey × Job). IsOwned n e.1) jobs

abbrev pub AreAddrs : {K : Type 0} → ℕ → Map K Addr → Type 0
AreAddrs {K} n m = All (λ (e : K × Addr). e.1 < n) m

pub record IsGrounded {W C : Type 0} (c : Context W C) : Type 0 where
  pub formations : AreAddrs (length c.heap) c.formations
  pub jobs : AreOwned (length c.heap) c.jobs
  pub tasks : All (IsGroundedTask (length c.heap)) c.tasks

pub IsOwned-mono : {n m : ℕ} (j : Job) → n ≤ m → IsOwned n j → IsOwned m j
IsOwned-mono j le (owned a e lt) = owned a e (omega arith)

pub IsGroundedTask-mono : {n m : ℕ} (t : Task) → n ≤ m → IsGroundedTask n t → IsGroundedTask m t
IsGroundedTask-mono (rectify_formation locked a) le lt = omega arith
IsGroundedTask-mono (remove_from none typ host id) le lt = absurd lt
IsGroundedTask-mono (remove_from (some a) typ host id) le lt = omega arith
IsGroundedTask-mono (watch id) le lt = tt

pub AreOwned-mono : {n m : ℕ} (jobs : Map JobKey Job) → n ≤ m → AreOwned n jobs → AreOwned m jobs
AreOwned-mono jobs le = All-map (λ (e : JobKey × Job). IsOwned-mono e.1 le) jobs

pub AreAddrs-mono :
    {K : Type 0} {n m : ℕ} (table : Map K Addr) → n ≤ m → AreAddrs n table → AreAddrs m table
AreAddrs-mono {K} table le = All-map (λ (e : K × Addr) lt. omega arith) table
