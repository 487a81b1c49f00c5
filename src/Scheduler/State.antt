-- ===== src/Scheduler/State.antt =====
-- The data of scheduler/main.go, the services that it calls, and Go's run-time faults.
use flynn_controller.Prelude.{ℕ, Bool, List, Option, Text, ℤ, ◌≡◌, refl}
use flynn_controller.Prelude.Map.{Map}
use flynn_controller.Types
use flynn_controller.Types.{Release, Artifact, Host, HostJob}
use flynn_controller.Utils.{ParseUrl}

-- hostID, jobID
abbrev pub JobKey : Type 0
JobKey = Text × Text

-- appID, releaseID
abbrev pub FormationKey : Type 0
FormationKey = Text × Text

-- A pointer to a formation is its address in the heap of the scheduler's context.
abbrev pub Addr : Type 0
Addr = ℕ

pub record Job : Type 0 where
  pub type : Text
  pub formation : Option Addr

abbrev pub JobTypeMap : Type 0
JobTypeMap = Map Text (Map JobKey Job)

pub record Formation : Type 0 where
  pub app_id : Text
  pub release : Release
  pub artifact : Artifact
  pub processes : Map Text ℤ
  pub jobs : JobTypeMap

-- The cluster client, the controller client, the random identifiers and `url.Parse`, over the state
-- `W` of the world outside and the type `C` of connections to hosts. A true flag is an error.
pub record Services (W C : Type 0) : Type 0 where
  pub parse_url : ParseUrl
  pub random_job_id : W → Text × W
  pub list_hosts : W → Map Text Host × Bool × W
  pub add_jobs : Text → HostJob → W → Bool × W
  pub dial_host : Text → W → Option C × W
  pub stop_job : C → Text → W → Bool × W
  pub get_release : Text → W → Option Release × W
  pub get_artifact : Text → W → Option Artifact × W
  pub get_formation : Text → Text → W → Option Types.Formation × W

-- What a method of a formation reads and writes under its lock: the formation itself (at `addr`),
-- the context's job map and host connections, and the world. `watches` are the hosts for which a
-- goroutine `watchHost` was started, in order.
pub record State (W C : Type 0) : Type 0 where
  pub addr : Addr
  pub self : Formation
  pub jobs : Map JobKey Job
  pub hosts : Map Text (Option C)
  pub watches : List Text
  pub world : W

pub data Fault : Type 0 where
  nil_dereference index_out_of_range failed_assertion : Fault

-- A run-time panic ends the process.
pub data Outcome {ℓ} (A : Type ℓ) : Type ℓ where
  done : A → Outcome A
  panic : Fault → Outcome A

infixl 5 ◌>>=◌
abbrev pub ◌>>=◌ {ℓ κ} : {A : Type ℓ} {B : Type κ} → Outcome A → (A → Outcome B) → Outcome B
done a >>= f = f a
panic e >>= f = panic e

pub >>=-eq-done {ℓ κ} :
    {A : Type ℓ} {B : Type κ} (m : Outcome A) (f : A → Outcome B) {b : B}
    → (m >>= f) ≡ done b
    → (a : A) × (m ≡ done a) × (f a ≡ done b)
>>=-eq-done (done a) f h = (a, refl, h)
>>=-eq-done (panic e) f h = cc
