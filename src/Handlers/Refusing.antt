-- ===== src/Handlers/Refusing.antt =====
-- putFormation: when a formation of a protected application is refused.
use flynn_controller.Prelude.{
  ◌≡◌, ◌≢◌, ◌↔◌, refl, ap, sym, ◌∙◌, true, false, none, [], ◌∷◌, Text, ◌&&◌, Bool-cases, inl, inr,
  IsIn, ℤ, pos, negsuc, arith,
}
use flynn_controller.Prelude.Map
use flynn_controller.Prelude.Map.{Map}
use flynn_controller.Types.{App, Release, Formation, ProcessType}
use flynn_controller.Sql.{Result, ok, not_found, failure}
use flynn_controller.FormationRepo.{Statements, add}
use flynn_controller.Http.{json}
use flynn_controller.Handlers.{count_of, is_zero, any_unset, put_formation, answer_of}

is_zero_iff : (n : ℤ) → (is_zero n ≡ true) ↔ (n ≡ pos 0)
is_zero_iff (pos n) = ground arith
is_zero_iff (negsuc n) = ground arith

-- Some type of the release has the count 0, or none.
abbrev pub IsLacking : Release → Map Text ℤ → Type 0
IsLacking release processes =
    (name : Text) × IsIn name (Map.keys release.processes) × (count_of name processes ≡ pos 0)

any_unset_sound :
    (types : Map Text ProcessType) (processes : Map Text ℤ)
    → any_unset types processes ≡ true
    → (name : Text) × IsIn name (Map.keys types) × (count_of name processes ≡ pos 0)
unfolding any_unset Map.keys
any_unset_sound [] processes h = cc h
any_unset_sound ((k, t) ∷ types) processes h = elim (Bool-cases (is_zero (count_of k processes))) [
  | inl zero_here ↦ (k, inl refl, (is_zero_iff (count_of k processes)).0 zero_here)
  | inr other ↦
      let (name, i, e) = any_unset_sound types processes (ground arith) in (name, inr i, e)
]

any_unset_complete :
    (types : Map Text ProcessType) (processes : Map Text ℤ) (name : Text)
    → IsIn name (Map.keys types)
    → count_of name processes ≡ pos 0
    → any_unset types processes ≡ true
unfolding any_unset Map.keys
any_unset_complete [] processes name i e = absurd i
any_unset_complete ((k, t) ∷ types) processes name (inl same) e =
    let here =
      (is_zero_iff (count_of k processes)).1 (ap (λ x. count_of x processes) (sym same) ∙ e) in
    ground arith
any_unset_complete ((k, t) ∷ types) processes name (inr i) e =
    let rest = any_unset_complete types processes name i e in ground arith

answer_of-ne-400 : {A : Type 0} (r : Result A) → answer_of r ≢ json 400 none
answer_of-ne-400 (ok a) h = ground arith
answer_of-ne-400 not_found h = ground arith
answer_of-ne-400 failure h = ground arith

module _ {W : Type 0} (db : Statements W) where
  -- The answer is 400 exactly when the application is protected and some process type of the
  -- release has the count 0 in the formation, or none; a negative count is not refused. On every
  -- branch, that one too, the formation has been given to the repository under the application and
  -- the release, and the world is the one that leaves.
  pub put_formation_refuses :
      (formation : Formation) (app : App) (release : Release) (w : W)
      → ((put_formation db formation app release w).0 ≡ json 400 none
          ↔ (app.protected ≡ true) × IsLacking release formation.processes)
        × ((put_formation db formation app release w).1
            ≡ (add db (record formation { app_id = app.id; release_id = release.id }) w).1)
  unfolding put_formation
  put_formation_refuses formation app release w =
      let (added, w1) = add db (record formation { app_id = app.id; release_id = release.id }) w in
      elim (Bool-cases (app.protected && any_unset release.processes formation.processes)) [
        | inl refused ↦ (
          (
            (λ h. (
              ground arith,
              any_unset_sound release.processes formation.processes (ground arith),
            )),
            (λ h. rw refused refl),
          ),
          rw refused refl,
        )
        | inr kept ↦ (
          (
            (λ h. absurd (answer_of-ne-400 added (sym (rw kept refl) ∙ h))),
            (λ h. absurd (lacking kept h)),
          ),
          rw kept refl,
        )
      ]
    where
      lacking :
          (app.protected && any_unset release.processes formation.processes) ≡ false
          → (app.protected ≡ true) × IsLacking release formation.processes
          → ⊥
      lacking kept (guarded, (name, i, e)) =
          let found = any_unset_complete release.processes formation.processes name i e in
          ground arith
