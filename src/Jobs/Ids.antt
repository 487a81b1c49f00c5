-- ===== src/Jobs/Ids.antt =====
-- The identifiers of jobs.go name a host and a job of it.
use flynn_controller.Prelude.{
  ◌≡◌, ◌≢◌, ap, sym, List, [], ◌∷◌, Text, text_eq, beq_ne, eq_iff, arith,
}
use flynn_controller.Strings.{split_n2}
use flynn_controller.Strings.Laws.{Lacks, split_n2-append, split_n2_sound}
use flynn_controller.Jobs.{job_id_parts, parse_job_id, job_id}

-- The identifier printed for a job is parsed back into its host and job, if the host's identifier
-- has no dash and neither is empty.
pub parse_job_id-job_id :
    (host job : Text)
    → Lacks b'-' host
    → host ≢ []
    → job ≢ []
    → parse_job_id (job_id host job) ≡ (host, job)
unfolding parse_job_id
parse_job_id-job_id host job lacks h j =
    rw (split_n2-append b'-' host job lacks, beq_ne host [] h, beq_ne job [] j)

-- Parts that give a host that is not empty are two, the host and a job that is not empty.
job_id_parts_sound :
    (parts : List Text) (host job : Text)
    → job_id_parts parts ≡ (host, job)
    → host ≢ []
    → (parts ≡ host ∷ job ∷ []) × (job ≢ [])
unfolding job_id_parts
job_id_parts_sound [] host job e h = absurd (h (sym (ap (λ (p : Text × Text). p.0) e)))
job_id_parts_sound (a ∷ []) host job e h = absurd (h (sym (ap (λ (p : Text × Text). p.0) e)))
job_id_parts_sound (a ∷ b ∷ []) host job e h = ground (arith, eq_iff a [], eq_iff b [])
job_id_parts_sound (a ∷ b ∷ c ∷ r) host job e h = absurd (h (sym (ap (λ (p : Text × Text). p.0) e)))

-- When parsing gives a host that is not empty, the identifier is the one printed for that host and
-- job; the host has no dash and the job is not empty.
pub parse_job_id_sound :
    (id host job : Text)
    → parse_job_id id ≡ (host, job)
    → host ≢ []
    → (id ≡ job_id host job) × Lacks b'-' host × (job ≢ [])
unfolding parse_job_id
parse_job_id_sound id host job e h =
    let (parts, j) = job_id_parts_sound (split_n2 b'-' id) host job e h in
    let (spells, lacks) = split_n2_sound b'-' id host job parts in (spells, lacks, j)
