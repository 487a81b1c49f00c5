-- ===== src/Apps/Protecting.antt =====
-- AppRepo.Update over a database with transactions.
use flynn_controller.Prelude.{
  ◌≡◌, ◌∙◌, refl, Bool, true, false, Option, none, some, [], ◌∷◌, Text, text_eq, arith,
  Option-cases, Bool-cases, inl, inr,
}
use flynn_controller.Prelude.Map.{Map}
use flynn_controller.Types.{App}
use flynn_controller.Sql.{Result, ok, not_found, failure}
use flynn_controller.Sql.Transactions.{IsTransaction}
use flynn_controller.Crud.{Value, boolean, other}
use flynn_controller.Apps.Stored.{
  Statements, select_row, select_app, protect, set_field, update_fields, commit_app,
  update_selected, update,
}

module _ {W D : Type 0} (db : Statements W) (set : Text → Bool → D → D)
    (committed working : W → D) where
  -- What the code relies on: reads change nothing, and an UPDATE without an error changes only what
  -- its transaction works on.
  pub record IsStore : Type 0 where
    pub tx : IsTransaction db.tx committed working
    pub known_keeps :
        (id : Text) (w : W)
        → let after = (db.select_known true id w).1 in
          (committed after ≡ committed w) × (working after ≡ working w)
    pub named_keeps :
        (id : Text) (w : W)
        → let after = (db.select_named true id w).1 in
          (committed after ≡ committed w) × (working after ≡ working w)
    pub set_keeps :
        (id : Text) (b : Bool) (w : W) → committed (db.set_protected id b w).1 ≡ committed w
    pub set_row :
        (id : Text) (b : Bool) (w after : W)
        → db.set_protected id b w ≡ (false, after)
        → working after ≡ set id b (working w)

  module _ (store : IsStore) where
    pub select_app_keeps :
        (id : Text) (w : W)
        → let after = (select_app db true id w).1 in
          (committed after ≡ committed w) × (working after ≡ working w)
    unfolding select_app select_row
    select_app_keeps id w = ground (arith, store.known_keeps id w, store.named_keeps id w)

    set_field_keeps :
        (k : Text) (v : Value) (app : App) (w : W)
        → committed (set_field db k v app w).1 ≡ committed w
    unfolding set_field protect
    set_field_keeps k other app w = ground (arith, store.tx.rollback_keeps w)
    set_field_keeps k (boolean b) app w =
        let (bad, w1) = db.set_protected app.id b w in
        ground (arith, store.set_keeps app.id b w, store.tx.rollback_keeps w1)

    update_fields_keeps :
        (fields : Map Text Value) (app : App) (w : W)
        → committed (update_fields db fields app w).1 ≡ committed w
    unfolding update_fields
    update_fields_keeps [] app w = refl
    update_fields_keeps ((k, v) ∷ fields) app w =
        let (changed, w1) = set_field db k v app w in
        let kept = set_field_keeps k v app w in
        elim (Option-cases changed) [
          | inl bad ↦ ground arith
          | inr (a, good) ↦ ground (arith, update_fields_keeps fields a w1)
        ]

    commit_app_keeps :
        (changed : Option App) (w after : W)
        → commit_app db (changed, w) ≡ (none, after)
        → committed after ≡ committed w
    unfolding commit_app
    commit_app_keeps none w after h = ground arith
    commit_app_keeps (some app) w after h = elim (Bool-cases (db.tx.commit w).0) [
      | inl bad ↦ store.tx.commit_fails w after (ground arith)
      | inr good ↦ absurd (ground arith)
    ]

    update_selected_keeps :
        (fields : Map Text Value) (found : Result App) (w after : W)
        → update_selected db fields (found, w) ≡ (none, after)
        → committed after ≡ committed w
    unfolding update_selected
    update_selected_keeps fields (ok app) w after h =
        let (changed, w1) = update_fields db fields app w in
        commit_app_keeps changed w1 after h ∙ update_fields_keeps fields app w
    update_selected_keeps fields not_found w after h = ground (arith, store.tx.rollback_keeps w)
    update_selected_keeps fields failure w after h = ground (arith, store.tx.rollback_keeps w)

    -- Where failed and rolled back transactions commit nothing, an Update that answers an error,
    -- such as for a value that is no Boolean, leaves what is committed as it was.
    pub update_error :
        (id : Text) (fields : Map Text Value) (w after : W)
        → update db id fields w ≡ (none, after)
        → committed after ≡ committed w
    unfolding update
    update_error id fields w after h =
        let (begun, w1) = db.tx.begin w in
        let kept = store.tx.begin_keeps w in
        elim (Bool-cases begun) [
          | inl bad ↦ ground arith
          | inr good ↦
              let (found, w2) = select_app db true id w1 in
              update_selected_keeps fields found w2 after (ground arith)
              ∙ (select_app_keeps id w1).0
              ∙ kept
        ]
