-- ===== src/Scheduler/Placement.antt =====
-- The host that `add` of scheduler/main.go picks for a job has the fewest jobs of its type.
use flynn_controller.Prelude.{
  ℕ, ◌≤◌, ◌≡◌, ◌≢◌, ◌⊎◌, refl, sym, ap, ◌∙◌, none, some, List, [], ◌∷◌, Text, text_eq, pair_eq,
  eq_iff, eq_cases, leb, suc, ◌+◌, ◌==◌, ◌&&◌, if◌then◌else◌, All, IsIn, arith, inl, inr,
  Option-cases, Bool-cases,
}
use flynn_controller.Prelude.Map
use flynn_controller.Prelude.Map.{
  Map, IsUnique, get-put, get-put_self, get-put_ne, put-IsUnique, get-empty, get_head, get_tail,
  get-entry, entry-get, put-ne-nil,
}
use flynn_controller.Types.{Host, HostJob}
use flynn_controller.Utils.{read, attr_app, attr_release, attr_type}
use flynn_controller.Scheduler.State.{Formation, done}
use flynn_controller.Scheduler.Method.{
  job_type, count_jobs, host_counts, insert_host, sort_hosts, host_at, pick_host,
}
use flynn_controller.Scheduler.Adding.{sort_host_counts-ne-nil}

abbrev Below : ℕ → List (Text × ℕ) → Type 0
Below n = All (λ (h : Text × ℕ). n ≤ h.1)

abbrev IsSorted : List (Text × ℕ) → Type 0
IsSorted [] = Unit
IsSorted (h ∷ sh) = Below h.1 sh × IsSorted sh

Below-insert :
    (n : ℕ) (h : Text × ℕ) (sh : List (Text × ℕ))
    → n ≤ h.1
    → Below n sh
    → Below n (insert_host h sh)
unfolding insert_host
Below-insert n h [] le b = (le, tt)
Below-insert n h (g ∷ sh) le b = elim (Bool-cases (leb h.1 g.1)) [
  | inl first ↦ rw first (le, b)
  | inr later ↦ rw later (b.0, Below-insert n h sh le b.1)
]

Below-trans : (m n : ℕ) (sh : List (Text × ℕ)) → m ≤ n → Below n sh → Below m sh
Below-trans m n [] le b = tt
Below-trans m n (g ∷ sh) le b = (omega (arith, b.0), Below-trans m n sh le b.1)

insert_host-IsSorted :
    (h : Text × ℕ) (sh : List (Text × ℕ)) → IsSorted sh → IsSorted (insert_host h sh)
unfolding insert_host
insert_host-IsSorted h [] s = (tt, tt)
insert_host-IsSorted h (g ∷ sh) s = elim (Bool-cases (leb h.1 g.1)) [
  | inl first ↦
      let le : h.1 ≤ g.1 = ground arith in rw first ((le, Below-trans h.1 g.1 sh le s.0), s)
  | inr later ↦ rw later (Below-insert g.1 h sh (ground arith) s.0, insert_host-IsSorted h sh s.1)
]

sort_hosts-IsSorted : (counts : Map Text ℕ) → IsSorted (sort_hosts counts)
unfolding sort_hosts
sort_hosts-IsSorted [] = tt
sort_hosts-IsSorted (h ∷ counts) =
    insert_host-IsSorted h (sort_hosts counts) (sort_hosts-IsSorted counts)

IsIn-insert : (p h : Text × ℕ) (sh : List (Text × ℕ)) → IsIn p (h ∷ sh) → IsIn p (insert_host h sh)
unfolding insert_host
IsIn-insert p h [] i = i
IsIn-insert p h (g ∷ sh) i = elim (Bool-cases (leb h.1 g.1)) [
  | inl first ↦ rw first i
  | inr later ↦ rw later (elim i [
    | inl e ↦ inr (IsIn-insert p h sh (inl e))
    | inr (inl e) ↦ inl e
    | inr (inr rest) ↦ inr (IsIn-insert p h sh (inr rest))
  ])
]

IsIn-insert_inv :
    (p h : Text × ℕ) (sh : List (Text × ℕ)) → IsIn p (insert_host h sh) → IsIn p (h ∷ sh)
unfolding insert_host
IsIn-insert_inv p h [] i = i
IsIn-insert_inv p h (g ∷ sh) i = elim (Bool-cases (leb h.1 g.1)) [
  | inl first ↦ rw first at i
  | inr later ↦
      let j : (p ≡ g) ⊎ IsIn p (insert_host h sh) = rw later at i in
      elim j [
        | inl e ↦ inr (inl e)
        | inr rest ↦ elim (IsIn-insert_inv p h sh rest) [ inl e ↦ inl e | inr r ↦ inr (inr r) ]
      ]
]

IsIn-sort : (p : Text × ℕ) (counts : Map Text ℕ) → IsIn p counts → IsIn p (sort_hosts counts)
unfolding sort_hosts
IsIn-sort p [] i = i
IsIn-sort p (h ∷ counts) (inl e) = IsIn-insert p h (sort_hosts counts) (inl e)
IsIn-sort p (h ∷ counts) (inr i) = IsIn-insert p h (sort_hosts counts) (inr (IsIn-sort p counts i))

IsIn-sort_inv : (p : Text × ℕ) (counts : Map Text ℕ) → IsIn p (sort_hosts counts) → IsIn p counts
unfolding sort_hosts
IsIn-sort_inv p [] i = i
IsIn-sort_inv p (h ∷ counts) i = elim (IsIn-insert_inv p h (sort_hosts counts) i) [
  | inl e ↦ inl e
  | inr rest ↦ inr (IsIn-sort_inv p counts rest)
]

Below-IsIn : (n : ℕ) (p : Text × ℕ) (sh : List (Text × ℕ)) → Below n sh → IsIn p sh → n ≤ p.1
Below-IsIn n p [] b i = absurd i
Below-IsIn n p (h ∷ sh) b (inl e) = rw e b.0
Below-IsIn n p (h ∷ sh) b (inr i) = Below-IsIn n p sh b.1 i

-- ListHosts keys each host by its identifier.
abbrev pub AreKeyed : Map Text Host → Type 0
AreKeyed = All (λ (p : Text × Host). p.1.id ≡ p.0)

keyed_id :
    (k : Text) (g : Host) (hosts : Map Text Host) → AreKeyed hosts → IsIn (k, g) hosts → g.id ≡ k
keyed_id k g [] a i = absurd i
keyed_id k g (p ∷ hosts) a (inl e) = cc (a.0, e)
keyed_id k g (p ∷ hosts) a (inr i) = keyed_id k g hosts a.1 i

host_at_of_some :
    (k : Text) (h : Host) (hosts : Map Text Host) → Map.get k hosts ≡ some h → host_at k hosts ≡ h
unfolding host_at
host_at_of_some k h hosts e = rw (e, host_at)

module _ (f : Formation) (name : Text) where
  -- the number of jobs of the type on a host
  abbrev pub jobs_on : Host → ℕ
  jobs_on h = count_jobs f name h.jobs 0

  host_counts-IsUnique :
      (hosts : Map Text Host) (counts : Map Text ℕ)
      → IsUnique counts
      → IsUnique (host_counts f name hosts counts)
  unfolding host_counts
  host_counts-IsUnique [] counts u = u
  host_counts-IsUnique ((k, h) ∷ hosts) counts u =
      host_counts-IsUnique hosts _ (put-IsUnique h.id (jobs_on h) counts u)

  get-host_counts_absent :
      (k : Text) (hosts : Map Text Host) (counts : Map Text ℕ)
      → AreKeyed hosts
      → Map.get k hosts ≡ none
      → Map.get k (host_counts f name hosts counts) ≡ Map.get k counts
  unfolding host_counts Map.get
  get-host_counts_absent k [] counts a e = refl
  get-host_counts_absent k ((j, h) ∷ hosts) counts a e = ground (
    arith,
    get-host_counts_absent k hosts (Map.put h.id (jobs_on h) counts) a.1,
    get-put h.id k (jobs_on h) counts,
    eq_iff j k,
    eq_iff h.id k,
  )

  get-host_counts :
      (k : Text) (g : Host) (hosts : Map Text Host) (counts : Map Text ℕ)
      → AreKeyed hosts
      → IsUnique hosts
      → Map.get k hosts ≡ some g
      → Map.get k (host_counts f name hosts counts) ≡ some (jobs_on g)
  unfolding host_counts
  get-host_counts k g [] counts a u e = cc (get-empty {V = Host} k)
  get-host_counts k g ((j, h) ∷ hosts) counts a u e = elim (eq_cases j k) [
    | inl same ↦
        let here : h ≡ g = cc (get_head j h hosts, ap (λ x. Map.get x ((j, h) ∷ hosts)) same, e) in
        let gone : Map.get k hosts ≡ none = cc (ap (λ x. Map.get x hosts) same, u.0) in
        get-host_counts_absent k hosts _ a.1 gone
        ∙ ap (λ x. Map.get x (Map.put h.id (jobs_on h) counts)) (sym (a.0 ∙ same))
        ∙ get-put_self h.id (jobs_on h) counts
        ∙ ap (λ (x : Host). some (jobs_on x)) here
    | inr other ↦ get-host_counts k g hosts _ a.1 u.1 (sym (get_tail j k h hosts other) ∙ e)
  ]

  -- A count stands for a host.
  counted_host :
      (k : Text) (n : ℕ) (hosts : Map Text Host)
      → AreKeyed hosts
      → IsUnique hosts
      → Map.get k (host_counts f name hosts []) ≡ some n
      → (g : Host) × (Map.get k hosts ≡ some g) × (jobs_on g ≡ n)
  counted_host k n hosts a u e = elim (Option-cases (Map.get k hosts)) [
    | inl absent ↦ cc (get-host_counts_absent k hosts [] a absent, get-empty {V = ℕ} k, e)
    | inr (g, present) ↦ (g, present, cc (get-host_counts k g hosts [] a u present, e))
  ]

  pick_least :
      (hosts : Map Text Host) (least : Text × ℕ) (rest : List (Text × ℕ))
      → AreKeyed hosts
      → IsUnique hosts
      → sort_hosts (host_counts f name hosts []) ≡ least ∷ rest
      → (h : Host) × (pick_host f name hosts ≡ done h)
        × (Map.get h.id hosts ≡ some h)
        × ((k : Text) (g : Host) → Map.get k hosts ≡ some g → jobs_on h ≤ jobs_on g)
  unfolding pick_host
  pick_least hosts least rest a u e =
      let counts = host_counts f name hosts [] in
      let first : IsIn least (sort_hosts counts) = rw e (inl refl) in
      let (h, found, number) = counted_host least.0 least.1 hosts a u (
        entry-get least.0 least.1 counts (host_counts-IsUnique hosts [] tt)
          (IsIn-sort_inv least counts first)) in
      let named : h.id ≡ least.0 = keyed_id least.0 h hosts a (get-entry least.0 h hosts found) in
      let sorted : IsSorted (least ∷ rest) = rw e at (sort_hosts-IsSorted counts) in
      (
        h,
        rw (e, pick_host) (ap done (host_at_of_some least.0 h hosts found)),
        rw named found,
        λ k g at_k.
            let entry =
              IsIn-sort (k, jobs_on g) counts
                (get-entry k (jobs_on g) counts (get-host_counts k g hosts [] a u at_k)) in
            let there : IsIn (k, jobs_on g) (least ∷ rest) = rw e at entry in
            elim there [
              | inl same ↦ omega (arith, number, ap (λ (p : Text × ℕ). p.1) same)
              | inr later ↦
                  omega (arith, number, Below-IsIn least.1 (k, jobs_on g) rest sorted.0 later)
            ],
      )

pick_counted :
    (f : Formation) (name : Text) (hosts : Map Text Host)
    → AreKeyed hosts
    → IsUnique hosts
    → hosts ≢ []
    → (h : Host) × (pick_host f name hosts ≡ done h)
      × (Map.get h.id hosts ≡ some h)
      × ((k : Text) (g : Host) → Map.get k hosts ≡ some g → jobs_on f name h ≤ jobs_on f name g)
pick_counted f name hosts a u h = pick (sort_hosts (host_counts f name hosts [])) refl
  where
    pick :
        (sh : List (Text × ℕ))
        → sort_hosts (host_counts f name hosts []) ≡ sh
        → (h : Host) × (pick_host f name hosts ≡ done h)
          × (Map.get h.id hosts ≡ some h)
          × ((k : Text) (g : Host) → Map.get k hosts ≡ some g → jobs_on f name h ≤ jobs_on f name g)
    pick [] e = absurd (sort_host_counts-ne-nil f name hosts h e)
    pick (least ∷ rest) e = pick_least f name hosts least rest a u e

-- The number of jobs that are tagged with the application, the release and the type.
unfoldable pub jobs_tagged : Text → Text → Text → List HostJob → ℕ
jobs_tagged app release type [] = 0
jobs_tagged app release type (j ∷ jobs) =
    let rest = jobs_tagged app release type jobs in
    if read attr_app j.attributes == app
      && read attr_release j.attributes == release
      && read attr_type j.attributes == type
    then suc rest
    else rest

-- What jobType answers for a job is the name of a type only if the job has all of the tags.
job_type_tagged :
    (f : Formation) (name : Text) (j : HostJob)
    → name ≢ []
    → (job_type f j == name) ≡ (
        read attr_app j.attributes == f.app_id
        && read attr_release j.attributes == f.release.id
        && read attr_type j.attributes == name)
unfolding job_type
job_type_tagged f name j named = elim (eq_cases name []) [
  | inl empty ↦ absurd (named empty)
  | inr other ↦ ground (arith, other, eq_iff [] name)
]

count_jobs-tagged :
    (f : Formation) (name : Text) (jobs : List HostJob) (n : ℕ)
    → name ≢ []
    → count_jobs f name jobs n ≡ n + jobs_tagged f.app_id f.release.id name jobs
unfolding count_jobs jobs_tagged
count_jobs-tagged f name [] n named = omega arith
count_jobs-tagged f name (j ∷ jobs) n named = ground (
  arith,
  job_type_tagged f name j named,
  count_jobs-tagged f name jobs n named,
  count_jobs-tagged f name jobs (n + 1) named,
)

-- When there are hosts, keyed by their identifiers, the host picked for a job of a type, whose name
-- is not empty, is one of them, and has at most as many jobs as any other that are tagged with the
-- application and the release of the formation and with the type.
pub pick_host_least :
    (f : Formation) (name : Text) (hosts : Map Text Host)
    → name ≢ []
    → AreKeyed hosts
    → IsUnique hosts
    → hosts ≢ []
    → (h : Host) × (pick_host f name hosts ≡ done h)
      × (Map.get h.id hosts ≡ some h)
      × ((k : Text) (g : Host)
          → Map.get k hosts ≡ some g
          → jobs_tagged f.app_id f.release.id name h.jobs
            ≤ jobs_tagged f.app_id f.release.id name g.jobs)
pick_host_least f name hosts named a u h =
    let (least, picked, there, fewest) = pick_counted f name hosts a u h in
    (
      least,
      picked,
      there,
      λ k g at_k. omega (
        arith,
        fewest k g at_k,
        count_jobs-tagged f name least.jobs 0 named,
        count_jobs-tagged f name g.jobs 0 named,
      ),
    )
