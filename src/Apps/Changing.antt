-- ===== src/Apps/Changing.antt =====
-- What AppRepo.Update changes, over a database with transactions.
use flynn_controller.Prelude.{
  ◌≡◌, ◌∙◌, refl, ap, sym, subst, Bool, true, false, Option, none, some, [], ◌∷◌, Text, codes,
  text_eq, ◌==◌, eq_iff, if◌then◌else◌, arith, Option-cases, Bool-cases, inl, inr,
}
use flynn_controller.Prelude.Map
use flynn_controller.Prelude.Map.{Map, IsUnique, get_head, get_tail}
use flynn_controller.Types.{App}
use flynn_controller.Sql.{Result, ok, not_found, failure}
use flynn_controller.Crud.{Value, boolean, other}
use flynn_controller.Apps.Stored.{
  Statements, bool_eqb, select_app, protect, set_field, update_fields, commit_app, update_selected,
  update,
}
use flynn_controller.Apps.Protecting.{IsStore, select_app_keeps}

bool_eqb_iff : (a b : Bool) → bool_eqb a b ≡ true → a ≡ b
bool_eqb_iff true true h = refl
bool_eqb_iff true false h = absurd (ground arith)
bool_eqb_iff false true h = absurd (ground arith)
bool_eqb_iff false false h = refl

bool_eqb_refl : (a : Bool) → bool_eqb a a ≡ true
bool_eqb_refl true = refl
bool_eqb_refl false = refl

-- what the fields ask for
abbrev pub wanted : Option Value → Bool → Bool
wanted none protected = protected
wanted (some other) protected = protected
wanted (some (boolean b)) protected = b

-- the data behind the update of an application with this protection
abbrev pub protected_to : {D : Type 0} → (Text → Bool → D → D) → App → Bool → D → D
protected_to set app b d = if bool_eqb app.protected b then d else set app.id b d

module _ {W D : Type 0} (db : Statements W) (set : Text → Bool → D → D) (committed working : W → D)
    (store : IsStore db set committed working) where
  commit_app-some :
      (changed : Option App) (b : App) (w after : W)
      → commit_app db (changed, w) ≡ (some b, after)
      → (changed ≡ some b) × (committed after ≡ working w)
  unfolding commit_app
  commit_app-some none b w after h = absurd (ground arith)
  commit_app-some (some app) b w after h = elim (Bool-cases (db.tx.commit w).0) [
    | inl bad ↦ absurd (ground arith)
    | inr good ↦ (ground arith, store.tx.commit_publishes w after (ground arith))
  ]

  -- the application and the data after one field or several
  abbrev Changed : App → App → Option Value → W → W → Type 0
  Changed app b v w after =
      (b ≡ record app { protected = wanted v app.protected })
      × (working after ≡ protected_to set app (wanted v app.protected) (working w))

  protect-some :
      (v : Value) (app b : App) (w after : W)
      → protect db v app w ≡ (some b, after)
      → Changed app b (some v) w after
  unfolding protect
  protect-some other app b w after h = absurd (ground arith)
  protect-some (boolean p) app b w after h = elim (Bool-cases (bool_eqb app.protected p)) [
    | inl same ↦ (ground (arith, bool_eqb_iff app.protected p), ground arith)
    | inr differs ↦ elim (Bool-cases (db.set_protected app.id p w).0) [
      | inl bad ↦ absurd (ground arith)
      | inr good ↦ (ground arith, rw differs (store.set_row app.id p w after (ground arith)))
    ]
  ]

  -- fields of other names change nothing
  update_fields_other :
      (fields : Map Text Value) (app : App) (w : W)
      → Map.get (codes "protected") fields ≡ none
      → update_fields db fields app w ≡ (some app, w)
  unfolding update_fields set_field Map.get
  update_fields_other [] app w h = refl
  update_fields_other ((k, v) ∷ fields) app w h = elim (Bool-cases (k == codes "protected")) [
    | inl same ↦ absurd (ground arith)
    | inr differs ↦ ground (arith, update_fields_other fields app w)
  ]

  update_fields-some :
      (fields : Map Text Value) (app b : App) (w after : W)
      → IsUnique fields
      → update_fields db fields app w ≡ (some b, after)
      → Changed app b (Map.get (codes "protected") fields) w after
  unfolding update_fields set_field Map.get
  update_fields-some [] app b w after u h =
      (ground arith, ground (arith, bool_eqb_refl app.protected))
  update_fields-some ((k, v) ∷ fields) app b w after u h =
      elim (Bool-cases (k == codes "protected")) [
        | inl same ↦
            let (changed, w1) = protect db v app w in
            elim (Option-cases changed) [
              | inl bad ↦ absurd (ground arith)
              | inr (a, good) ↦
                  let last = update_fields_other fields a w1 (
                    subst (λ x. Map.get x fields ≡ none) ((eq_iff k (codes "protected")).0 same)
                      u.0) in
                  rw same (protect-some v app b w after (ground arith))
            ]
        | inr differs ↦ rw differs (update_fields-some fields app b w after u.1 (ground arith))
      ]

  update_selected-some :
      (fields : Map Text Value) (found : Result App) (b : App) (w after : W)
      → IsUnique fields
      → update_selected db fields (found, w) ≡ (some b, after)
      → (app : App) × (found ≡ ok app)
        × (b ≡ record app { protected = wanted (Map.get (codes "protected") fields) app.protected })
        × (committed after ≡ protected_to set app b.protected (working w))
  unfolding update_selected
  update_selected-some fields not_found b w after u h = absurd (ground arith)
  update_selected-some fields failure b w after u h = absurd (ground arith)
  update_selected-some fields (ok app) b w after u h =
      let (changed, w1) = update_fields db fields app w in
      let (good, published) = commit_app-some changed b w1 after h in
      let (same, work) = update_fields-some fields app b w w1 u (ground arith) in
      (
        app,
        refl,
        same,
        published
            ∙ work
            ∙ ap (λ (x : App). protected_to set app x.protected (working w)) (sym same),
      )

  -- Where a transaction commits what its statements wrote, an Update without an error answers the
  -- application that it read under the lock, with the protection that the fields ask for, and
  -- commits this protection for it, and nothing else.
  pub update_protects :
      (id : Text) (fields : Map Text Value) (b : App) (w after : W)
      → IsUnique fields
      → update db id fields w ≡ (some b, after)
      → (app : App) × ((select_app db true id (db.tx.begin w).1).0 ≡ ok app)
        × (b ≡ record app { protected = wanted (Map.get (codes "protected") fields) app.protected })
        × (committed after ≡ protected_to set app b.protected (committed w))
  unfolding update
  update_protects id fields b w after u h =
      let (begun, w1) = db.tx.begin w in
      elim (Bool-cases begun) [
        | inl bad ↦ absurd (ground arith)
        | inr good ↦
            let (found, w2) = select_app db true id w1 in
            let (app, read, same, published) =
              update_selected-some fields found b w2 after u (ground arith) in
            let copied : working w2 ≡ committed w =
              (select_app_keeps db set committed working store id w1).1
              ∙ store.tx.begin_copies w w1 (ground arith) in
            (app, read, same, published ∙ ap (protected_to set app b.protected) copied)
      ]
