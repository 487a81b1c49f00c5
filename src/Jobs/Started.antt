-- ===== src/Jobs/Started.antt =====
-- The jobs that runJob starts.
use flynn_controller.Prelude.{
  ◌≡◌, ◌≢◌, Bool, true, false, Option, none, some, [], ◌∷◌, Text, ap, arith, refl, Bool-cases,
  Option-cases, inl, inr, eq_iff, text_eq, ◌==◌, IsIn, sym, ◌∙◌,
}
use flynn_controller.Prelude.Map
use flynn_controller.Prelude.Map.{Map}
use flynn_controller.Sql.{clean_uuid, IsSimple}
use flynn_controller.Types.{App, Release, Artifact, Job, NewJob, Host, HostJob}
use flynn_controller.Utils.{ParseUrl, read, attr_app, docker_image}
use flynn_controller.Http.{Response, json}
use flynn_controller.Jobs.{Cluster, listed_job}
use flynn_controller.Jobs.Run.{
  one_off_job, first_host, run_detached, run_stream, run_attached, run_on, run_listed, run_image,
  run_stored, run_found, run_job, started, accepts_attach,
}

one_off_job_app :
    (app : App) (release : Release) (new : NewJob) (attach : Bool) (image id : Text)
    → read attr_app (one_off_job app release new attach image id).attributes ≡ app.id
unfolding one_off_job read
one_off_job_app app release new attach image id = refl

one_off_job_id :
    (app : App) (release : Release) (new : NewJob) (attach : Bool) (image id : Text)
    → (one_off_job app release new attach image id).id ≡ id
unfolding one_off_job
one_off_job_id app release new attach image id = refl

-- The list of jobs shows a one-off job as runJob answers it, but for the identifier of its release,
-- which is that of the repository.
listed-one_off :
    (app : App) (release : Release) (new : NewJob) (attach : Bool) (image host id : Text)
    → listed_job host (one_off_job app release new attach image id)
      ≡ record (started new host id) { release_id = release.id }
unfolding one_off_job read listed_job
listed-one_off app release new attach image host id = refl

first_host-IsIn :
    (hosts : Map Text Host) → first_host hosts ≢ [] → IsIn (first_host hosts) (Map.keys hosts)
unfolding first_host Map.keys
first_host-IsIn [] there = absurd (there refl)
first_host-IsIn ((k, h) ∷ hosts) there = inl refl

module _ {W C S : Type 0} (cluster : Cluster W C S) where
  -- A job was answered, and adding it to the host was the last thing done.
  abbrev pub Adds : NewJob → Text → HostJob → Response Job → W → Type 0
  Adds new host job response after =
      (before : W) × (cluster.add_jobs host job before ≡ (false, after))
      × (response ≡ json 200 (some (started new host job.id)))

  run_detached_sound :
      (new : NewJob) (host : Text) (job : HostJob) (w after : W) (j : Job)
      → run_detached cluster new host job w ≡ (json 200 (some j), after)
      → Adds new host job (json 200 (some j)) after
  unfolding run_detached
  run_detached_sound new host job w after j h = elim (Bool-cases (cluster.add_jobs host job w).0) [
    | inl bad ↦ absurd (ground arith)
    | inr good ↦ (w, ground arith, ground arith)
  ]

  run_attached-ne-json :
      (new : NewJob) (host : Text) (job : HostJob) (w after : W) (j : Job)
      → run_attached cluster new host job w ≢ (json 200 (some j), after)
  unfolding run_attached run_stream
  run_attached-ne-json new host job w after j h = ground arith

  run_on_sound :
      (attach : Bool) (new : NewJob) (host : Text) (job : HostJob) (w after : W) (j : Job)
      → run_on cluster attach new host job w ≡ (json 200 (some j), after)
      → Adds new host job (json 200 (some j)) after
  unfolding run_on
  run_on_sound true new host job w after j h =
      absurd (run_attached-ne-json new host job w after j h)
  run_on_sound false new host job w after j h = run_detached_sound new host job w after j h

  -- The job was added to a host that ListHosts answered, and the list of jobs shows it as it was
  -- answered, with the identifier of the release without dashes.
  pub record Starts (app : App) (new : NewJob) (j : Job) (after : W) : Type 0 where
    pub host : Text
    pub job : HostJob
    pub asked : W
    pub before : W
    pub known : IsIn host (Map.keys (cluster.list_hosts asked).0)
    pub named : host ≢ []
    pub adds : cluster.add_jobs host job before ≡ (false, after)
    pub tagged : read attr_app job.attributes ≡ app.id
    pub released : j.release_id ≡ new.release_id
    pub listed : listed_job host job ≡ record j { release_id = clean_uuid new.release_id }

  run_listed_sound :
      (attach : Bool) (new : NewJob) (job : HostJob) (hosts : Map Text Host) (failed : Bool)
      (w after : W) (j : Job)
      → run_listed cluster attach new job (hosts, failed, w) ≡ (json 200 (some j), after)
      → (first_host hosts ≢ []) × Adds new (first_host hosts) job (json 200 (some j)) after
  unfolding run_listed
  run_listed_sound attach new job hosts true w after j h = absurd (ground arith)
  run_listed_sound attach new job hosts false w after j h =
      elim (Bool-cases (first_host hosts == [])) [
        | inl empty ↦ absurd (ground arith)
        | inr some_host ↦ (
          (λ e. cc ((eq_iff (first_host hosts) []).1 e)),
          run_on_sound attach new (first_host hosts) job w after j (ground arith),
        )
      ]

  run_image-Starts :
      (app : App) (release : Release) (new : NewJob) (attach : Bool) (image : Text) (w after : W)
      (j : Job)
      → release.id ≡ clean_uuid new.release_id
      → run_image cluster app release new attach image w ≡ (json 200 (some j), after)
      → Starts app new j after
  unfolding run_image
  run_image-Starts app release new attach image w after j same h =
      let (id, w1) = cluster.random_job_id w in
      let started_job = one_off_job app release new attach image id in
      let (hosts, failed, w2) = cluster.list_hosts w1 in
      let (there, (earlier, added, e)) =
        run_listed_sound attach new started_job hosts failed w2 after j h in
      let answered : j ≡ started new (first_host hosts) id =
        ground (arith, one_off_job_id app release new attach image id) in
      record {
        host = first_host hosts;
        job = started_job;
        asked = w1;
        before = earlier;
        known = first_host-IsIn hosts there;
        named = there;
        adds = added;
        tagged = one_off_job_app app release new attach image id;
        released = ap (λ (x : Job). x.release_id) answered;
        listed =
            listed-one_off app release new attach image (first_host hosts) id
            ∙ ap (λ r. record (started new (first_host hosts) id) { release_id = r }) same
            ∙ ap (λ (x : Job). record x { release_id = clean_uuid new.release_id }) (sym answered);
      }

  run_stored-Starts :
      (parse : ParseUrl) (app : App) (release : Release) (new : NewJob) (attach : Bool)
      (stored : Option Artifact) (w after : W) (j : Job)
      → release.id ≡ clean_uuid new.release_id
      → run_stored cluster parse app release new attach (stored, w) ≡ (json 200 (some j), after)
      → Starts app new j after
  unfolding run_stored
  run_stored-Starts parse app release new attach none w after j same h = absurd (ground arith)
  run_stored-Starts parse app release new attach (some artifact) w after j same h =
      elim (Option-cases (docker_image parse artifact.uri)) [
        | inl bad ↦ absurd (ground arith)
        | inr (image, e) ↦
            run_image-Starts app release new attach image w after j same (ground arith)
      ]

  -- The world that a repository's read leaves is any; what it finds has the identifier asked for,
  -- without dashes, if that is simple.
  abbrev pub AnswersId : (Text → W → Option Release × W) → Type 0
  AnswersId releases =
      (id : Text) (w : W) (r : Release)
      → IsSimple id
      → (releases id w).0 ≡ some r
      → r.id ≡ clean_uuid id

  -- If the repository of releases answers a release under the identifier asked for without dashes,
  -- where that is of digits, letters in lower case and dashes, as that of the call is, a job that runJob answers with status 200
  -- was given to a host that ListHosts answered, with a name that is not empty, as the last thing
  -- done, without an error. It is tagged with the application. The answer has the identifier of the
  -- release as the call gave it, and is else the job that the list of the application's jobs shows,
  -- which has it without dashes.
  pub run_job-Starts :
      (parse : ParseUrl) (releases : Text → W → Option Release × W)
      (artifacts : Text → W → Option Artifact × W) (app : App) (new : NewJob) (accept : Text)
      (w after : W) (j : Job)
      → AnswersId releases
      → IsSimple new.release_id
      → run_job cluster parse releases artifacts app new accept w ≡ (json 200 (some j), after)
      → Starts app new j after
  unfolding run_job run_found
  run_job-Starts parse releases artifacts app new accept w after j answers lower h =
      let (found, w1) = releases new.release_id w in
      elim (Option-cases found) [
        | inl bad ↦ absurd (ground arith)
        | inr (release, e) ↦
            let (stored, w2) = artifacts release.artifact_id w1 in
            run_stored-Starts parse app release new (accepts_attach accept) stored w2 after j
              (answers new.release_id w release lower e) (ground arith)
      ]
