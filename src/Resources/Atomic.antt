-- ===== src/Resources/Atomic.antt =====
-- ResourceRepo.Add over a database with transactions: all of it is stored, or nothing.
use flynn_controller.Prelude.{
  ℕ, ◌≡◌, ◌∙◌, refl, Option, none, some, List, [], ◌∷◌, Text, text_eq, arith, Option-cases,
  Bool-cases, inl, inr,
}
use flynn_controller.Types.{Resource}
use flynn_controller.Sql.{row, fix_row_err, row_of, Hstore}
use flynn_controller.Sql.Transactions.{IsTransaction}
use flynn_controller.Resources.{
  Statements, env_hstore, link_app, link_apps, commit_resource, insert_resource, identified, add,
}

-- the data of a database, as far as resources change it
pub record Data (D : Type 0) : Type 0 where
  pub put_resource : Text → Text → Text → Hstore → ℕ → D → D
  pub put_link : Text → Text → D → D

-- links of applications to a resource
abbrev pub put_links : {D : Type 0} → Data D → Text → List Text → D → D
put_links s id [] d = d
put_links s id (app ∷ apps) d = put_links s id apps (s.put_link app id d)

module _ {W D : Type 0} (db : Statements W) (uuid : W → Text × W) (tables : Data D)
    (committed working : W → D) where
  -- What the code relies on: a statement changes only what its transaction works on, and one that
  -- answers a row has written it.
  pub record IsStore : Type 0 where
    pub tx : IsTransaction db.tx committed working
    pub uuid_keeps : (w : W) → committed (uuid w).1 ≡ committed w
    pub insert_keeps :
        (i p e : Text) (h : Hstore) (w : W) → committed (db.insert i p e h w).1 ≡ committed w
    pub insert_row :
        (i p e : Text) (h : Hstore) (t : ℕ) (w after : W)
        → db.insert i p e h w ≡ (row t, after)
        → working after ≡ tables.put_resource i p e h t (working w)
    pub known_keeps : (app id : Text) (w : W) → committed (db.link_known app id w).1 ≡ committed w
    pub known_row :
        (app id found : Text) (w after : W)
        → db.link_known app id w ≡ (row found, after)
        → working after ≡ tables.put_link found id (working w)
    pub named_keeps : (app id : Text) (w : W) → committed (db.link_named app id w).1 ≡ committed w
    pub named_row :
        (app id found : Text) (w after : W)
        → db.link_named app id w ≡ (row found, after)
        → working after ≡ tables.put_link found id (working w)

  module _ (store : IsStore) where
    link_app_keeps : (id app : Text) (w : W) → committed (link_app db id app w).1 ≡ committed w
    unfolding link_app
    link_app_keeps id app w = ground (arith, store.known_keeps app id w, store.named_keeps app id w)

    link_apps_keeps :
        (id : Text) (apps : List Text) (w : W) → committed (link_apps db id apps w).1 ≡ committed w
    unfolding link_apps
    link_apps_keeps id [] w = refl
    link_apps_keeps id (app ∷ apps) w =
        let (linked, w1) = link_app db id app w in
        ground
          (arith, link_app_keeps id app w, link_apps_keeps id apps w1, store.tx.rollback_keeps w1)

    commit_resource_keeps :
        (r : Resource) (linked : Option (List Text)) (w after : W)
        → commit_resource db r (linked, w) ≡ (none, after)
        → committed after ≡ committed w
    unfolding commit_resource
    commit_resource_keeps r none w after h = ground arith
    commit_resource_keeps r (some apps) w after h = elim (Bool-cases (db.tx.commit w).0) [
      | inl bad ↦ store.tx.commit_fails w after (ground arith)
      | inr good ↦ absurd (ground arith)
    ]

    insert_resource_keeps :
        (r : Resource) (w after : W)
        → insert_resource db r w ≡ (none, after)
        → committed after ≡ committed w
    unfolding insert_resource
    insert_resource_keeps r w after h =
        let (inserted, w1) = db.insert r.id r.provider_id r.external_id (env_hstore r.env) w in
        let kept = store.insert_keeps r.id r.provider_id r.external_id (env_hstore r.env) w in
        elim (Option-cases (row_of (fix_row_err inserted))) [
          | inl e ↦ ground (arith, store.tx.rollback_keeps w1)
          | inr (created, e) ↦
              let (linked, w2) = link_apps db r.id r.apps w1 in
              commit_resource_keeps (record r { created_at = some created }) linked w2 after
                (ground arith)
              ∙ link_apps_keeps r.id r.apps w1
              ∙ kept
        ]

    pub identified_keeps :
        (r : Resource) (w : W) → committed (identified db uuid r w).1 ≡ committed w
    unfolding identified
    identified_keeps r w = ground (arith, store.uuid_keeps w)

    -- Where failed and rolled back transactions commit nothing, an Add that answers an error leaves
    -- what is committed as it was, whichever of its statements failed.
    pub add_error :
        (r : Resource) (w after : W)
        → add db uuid r w ≡ (none, after)
        → committed after ≡ committed w
    unfolding add
    add_error r w after h =
        let (named, w1) = identified db uuid r w in
        let named_kept = identified_keeps r w in
        let begin_kept = store.tx.begin_keeps w1 in
        elim (Bool-cases (db.tx.begin w1).0) [
          | inl bad ↦ ground arith
          | inr good ↦
              insert_resource_keeps named (db.tx.begin w1).1 after (ground arith)
              ∙ begin_kept
              ∙ named_kept
        ]
