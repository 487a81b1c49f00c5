-- ===== src/Jobs/Listing.antt =====
-- What GET /apps/:apps_id/jobs lists.
use flynn_controller.Prelude.{
  ◌≡◌, ◌↔◌, Bool, List, [], ◌∷◌, ◌++◌, Text, text_eq, ◌==◌, if◌then◌else◌, true, false, subst, ap,
  inl, inr, ◌⊎◌, ◌≢◌, eq_cases, IsIn, refl, sym, ◌∙◌, arith, eq_iff,
}
use flynn_controller.Prelude.Map.{Map}
use flynn_controller.Types.{App, Job, Host, HostJob}
use flynn_controller.Utils.{read, attr_app, attr_release, attr_type}
use flynn_controller.Jobs.{listed_job, jobs_on_host, jobs_of_hosts}

-- How a job of a host is listed: its identifier is that of the host, a dash and its own, and only a
-- job without a type has its command.
pub record IsShown (host : Text) (j : HostJob) (job : Job) : Type 0 where
  pub named : job.id ≡ host ++ b'-' ∷ j.id
  pub typed : job.type ≡ read attr_type j.attributes
  pub released : job.release_id ≡ read attr_release j.attributes
  pub commanded :
      ((read attr_type j.attributes ≡ []) × (job.cmd ≡ j.config.cmd))
      ⊎ ((read attr_type j.attributes ≢ []) × (job.cmd ≡ []))

-- The job stands for one of the given jobs of a host that is tagged with the application.
abbrev pub IsListed : App → Text → List HostJob → Job → Type 0
IsListed app host jobs job =
    (j : HostJob) × IsIn j jobs × (read attr_app j.attributes ≡ app.id) × IsShown host j job

listed_job-IsShown : (host : Text) (j : HostJob) → IsShown host j (listed_job host j)
unfolding listed_job
listed_job-IsShown host j = record {
  named = refl;
  typed = refl;
  released = refl;
  commanded = elim (eq_cases (read attr_type j.attributes) []) [
    | inl untyped ↦ inl (untyped, ground (arith, untyped, eq_iff (read attr_type j.attributes) []))
    | inr some_type ↦
        inr (some_type, ground (arith, some_type, eq_iff (read attr_type j.attributes) []))
  ];
}

IsShown-listed_job :
    (host : Text) (j : HostJob) (job : Job) → IsShown host j job → job ≡ listed_job host j
unfolding listed_job
IsShown-listed_job host j job shown =
    let named = shown.named in
    let typed = shown.typed in
    let released = shown.released in
    let tested = eq_iff (read attr_type j.attributes) [] in
    elim shown.commanded [ inl e ↦ ground arith | inr e ↦ ground arith ]

IsIn-append : {A : Type 0} (a : A) (xs ys : List A) → IsIn a (xs ++ ys) ↔ (IsIn a xs ⊎ IsIn a ys)
IsIn-append a [] ys = ground arith
IsIn-append a (x ∷ xs) ys = ground (arith, IsIn-append a xs ys)

-- a list that may start with one more entry
IsIn-optional :
    {A : Type 0} (b : Bool) (a x : A) (xs : List A)
    → IsIn a (if b then x ∷ xs else xs) ↔ (((b ≡ true) × (a ≡ x)) ⊎ IsIn a xs)
IsIn-optional true a x xs = ground arith
IsIn-optional false a x xs = ground arith

jobs_on_host_sound :
    (app : App) (host : Text) (jobs : List HostJob) (job : Job)
    → IsIn job (jobs_on_host app host jobs)
    → IsListed app host jobs job
unfolding jobs_on_host
jobs_on_host_sound app host [] job h = absurd h
jobs_on_host_sound app host (j ∷ jobs) job h =
    elim ((IsIn-optional (read attr_app j.attributes == app.id) job (listed_job host j)
        (jobs_on_host app host jobs)).0
      h) [
        | inl (same, e) ↦ (
          j,
          inl refl,
          (eq_iff (read attr_app j.attributes) app.id).0 same,
          subst (IsShown host j) (sym e) (listed_job-IsShown host j),
        )
        | inr i ↦
            let (k, at, tagged, e) = jobs_on_host_sound app host jobs job i in
            (k, inr at, tagged, e)
      ]

jobs_on_host_complete :
    (app : App) (host : Text) (jobs : List HostJob) (j : HostJob)
    → IsIn j jobs
    → read attr_app j.attributes ≡ app.id
    → IsIn (listed_job host j) (jobs_on_host app host jobs)
unfolding jobs_on_host
jobs_on_host_complete app host [] j i tagged = absurd i
jobs_on_host_complete app host (k ∷ jobs) j (inl e) tagged =
    (IsIn-optional (read attr_app k.attributes == app.id) (listed_job host j) (listed_job host k)
        (jobs_on_host app host jobs)).1
      (inl (
        (eq_iff (read attr_app k.attributes) app.id).1
            (ap (λ (h : HostJob). read attr_app h.attributes) (sym e) ∙ tagged),
        ap (listed_job host) e,
      ))
jobs_on_host_complete app host (k ∷ jobs) j (inr i) tagged =
    (IsIn-optional (read attr_app k.attributes == app.id) (listed_job host j) (listed_job host k)
        (jobs_on_host app host jobs)).1
      (inr (jobs_on_host_complete app host jobs j i tagged))

-- Some host runs the job.
abbrev pub IsRun : App → Map Text Host → Job → Type 0
IsRun app hosts job = (k : Text) × (h : Host) × IsIn (k, h) hosts × IsListed app h.id h.jobs job

IsListed-IsIn :
    (app : App) (h : Host) (job : Job)
    → IsListed app h.id h.jobs job
    → IsIn job (jobs_on_host app h.id h.jobs)
IsListed-IsIn app h job (j, at, tagged, shown) =
    subst (λ x. IsIn x (jobs_on_host app h.id h.jobs)) (sym (IsShown-listed_job h.id j job shown))
      (jobs_on_host_complete app h.id h.jobs j at tagged)

jobs_of_hosts_sound :
    (app : App) (hosts : Map Text Host) (job : Job)
    → IsIn job (jobs_of_hosts app hosts)
    → IsRun app hosts job
unfolding jobs_of_hosts
jobs_of_hosts_sound app [] job i = absurd i
jobs_of_hosts_sound app ((k, h) ∷ hosts) job i =
    elim ((IsIn-append job (jobs_on_host app h.id h.jobs) (jobs_of_hosts app hosts)).0 i) [
      | inl here ↦ (k, h, inl refl, jobs_on_host_sound app h.id h.jobs job here)
      | inr there ↦
          let (n, g, at, listed) = jobs_of_hosts_sound app hosts job there in (n, g, inr at, listed)
    ]

jobs_of_hosts_complete :
    (app : App) (hosts : Map Text Host) (job : Job)
    → IsRun app hosts job
    → IsIn job (jobs_of_hosts app hosts)
unfolding jobs_of_hosts
jobs_of_hosts_complete app [] job (n, g, at, listed) = absurd at
jobs_of_hosts_complete app ((k, h) ∷ hosts) job (n, g, inl e, listed) =
    (IsIn-append job (jobs_on_host app h.id h.jobs) (jobs_of_hosts app hosts)).1 (
      inl (
        IsListed-IsIn app h job (
          subst (λ (x : Host). IsListed app x.id x.jobs job) (ap (λ (x : Text × Host). x.1) e)
            listed)))
jobs_of_hosts_complete app ((k, h) ∷ hosts) job (n, g, inr at, listed) =
    (IsIn-append job (jobs_on_host app h.id h.jobs) (jobs_of_hosts app hosts)).1
      (inr (jobs_of_hosts_complete app hosts job (n, g, at, listed)))

-- The list holds exactly the jobs that some host runs and that are tagged with the application:
-- each under the identifier of its host, a dash and its own, with the type and the release of its
-- tags, and with its command only if it has no type.
pub jobs_of_hosts_iff :
    (app : App) (hosts : Map Text Host) (job : Job)
    → IsIn job (jobs_of_hosts app hosts) ↔ IsRun app hosts job
jobs_of_hosts_iff app hosts job =
    (jobs_of_hosts_sound app hosts job, jobs_of_hosts_complete app hosts job)
