-- ===== src/Resources/Storing.antt =====
-- What ResourceRepo.Add stores, over a database with transactions.
use flynn_controller.Prelude.{
  ℕ, ◌≡◌, ◌∙◌, refl, ap, Option, none, some, List, [], ◌∷◌, map, Text, text_eq, ◌==◌, arith, eq_iff,
  ◌⊎◌, subst, Option-cases, Bool-cases, inl, inr,
}
use flynn_controller.Types.{Resource}
use flynn_controller.Ids.{matches_id}
use flynn_controller.Sql.{row, fix_row_err, clean_uuid, row_of, Hstore}
use flynn_controller.Sql.Laws.{row_of-some}
use flynn_controller.Resources.{
  Statements, env_hstore, link_app, link_apps, commit_resource, insert_resource, identified, add,
}
use flynn_controller.Resources.Atomic.{Data, put_links, IsStore, identified_keeps}

-- The relation of a text to the application whose identifier or name it is, in the data.
abbrev pub Naming : Type 0 → Type 1
Naming D = D → Text → Text → Type 0

-- The applications are those of the texts, one for each and in their order.
abbrev pub AreNamed : {D : Type 0} → Naming D → D → List Text → List Text → Type 0
AreNamed names d [] [] = Unit
AreNamed names d [] (x ∷ found) = ⊥
AreNamed names d (app ∷ apps) [] = ⊥
AreNamed names d (app ∷ apps) (x ∷ found) = names d app x × AreNamed names d apps found

module _ {W D : Type 0} (db : Statements W) (tables : Data D) (working : W → D)
    (names : Naming D) where
  -- What the code relies on: the SELECT of a link finds the application that has the identifier or
  -- the name, and a resource or a link changes no application.
  pub record IsNaming : Type 0 where
    pub known_named :
        (app id found : Text) (w after : W)
        → db.link_known app id w ≡ (row found, after)
        → names (working w) app found
    pub named_named :
        (app id found : Text) (w after : W)
        → db.link_named app id w ≡ (row found, after)
        → names (working w) app found
    pub resource_keeps :
        (i p e : Text) (h : Hstore) (t : ℕ) (app found : Text) (d : D)
        → names (tables.put_resource i p e h t d) app found
        → names d app found
    pub link_keeps :
        (a i app found : Text) (d : D) → names (tables.put_link a i d) app found → names d app found

  AreNamed-map :
      (d e : D)
      → ((app found : Text) → names d app found → names e app found)
      → (apps found : List Text) → AreNamed names d apps found
      → AreNamed names e apps found
  AreNamed-map d e keep [] [] h = tt
  AreNamed-map d e keep [] (x ∷ found) h = absurd h
  AreNamed-map d e keep (app ∷ apps) [] h = absurd h
  AreNamed-map d e keep (app ∷ apps) (x ∷ found) h =
      (keep app x h.0, AreNamed-map d e keep apps found h.1)

  link_app-names :
      (id app found : Text) (w after : W)
      → IsNaming
      → link_app db id app w ≡ (row found, after)
      → names (working w) app found
  unfolding link_app
  link_app-names id app found w after naming h = elim (Bool-cases (matches_id app)) [
    | inl known ↦ naming.known_named app id found w after (ground arith)
    | inr name ↦ naming.named_named app id found w after (ground arith)
  ]

module _ {W D : Type 0} (db : Statements W) (uuid : W → Text × W) (tables : Data D)
    (committed working : W → D) (store : IsStore db uuid tables committed working)
    (names : Naming D) (naming : IsNaming db tables working names) where
  link_app_row :
      (id app found : Text) (w after : W)
      → link_app db id app w ≡ (row found, after)
      → working after ≡ tables.put_link found id (working w)
  unfolding link_app
  link_app_row id app found w after h = elim (Bool-cases (matches_id app)) [
    | inl known ↦ store.known_row app id found w after (ground arith)
    | inr name ↦ store.named_row app id found w after (ground arith)
  ]

  link_apps-some :
      (id : Text) (apps written : List Text) (w after : W)
      → link_apps db id apps w ≡ (some written, after)
      → (found : List Text) × (written ≡ map clean_uuid found)
        × AreNamed names (working w) apps found
        × (working after ≡ put_links tables id found (working w))
  unfolding link_apps
  link_apps-some id [] written w after h = ([], ground arith, tt, ground arith)
  link_apps-some id (app ∷ apps) written w after h =
      let (linked, w1) = link_app db id app w in
      elim (Option-cases (row_of (fix_row_err linked))) [
        | inl e ↦ absurd (ground arith)
        | inr (x, e) ↦
            let (rest, w2) = link_apps db id apps w1 in
            elim (Option-cases rest) [
              | inl bad ↦ absurd (ground arith)
              | inr (l, good) ↦
                  let (found, same, named, work) = link_apps-some id apps l w1 w2 (ground arith) in
                  let answered : link_app db id app w ≡ (row x, w1) =
                    ground (arith, row_of-some linked x e) in
                  let first = link_app_row id app x w w1 answered in
                  (
                    x ∷ found,
                    ground arith,
                    (
                      link_app-names db tables working names id app x w w1 naming answered,
                      AreNamed-map db tables working names (working w1) (working w)
                          (λ a f h.
                            naming.link_keeps x id a f (working w)
                              (subst (λ d. names d a f) first h))
                          apps found named,
                    ),
                    ground arith,
                  )
            ]
      ]

  commit_resource-some :
      (r s : Resource) (linked : Option (List Text)) (w after : W)
      → commit_resource db r (linked, w) ≡ (some s, after)
      → (apps : List Text) × (linked ≡ some apps)
        × (s ≡ record r { id = clean_uuid r.id; apps = apps })
        × (committed after ≡ working w)
  unfolding commit_resource
  commit_resource-some r s none w after h = absurd (ground arith)
  commit_resource-some r s (some apps) w after h = elim (Bool-cases (db.tx.commit w).0) [
    | inl bad ↦ absurd (ground arith)
    | inr good ↦ (apps, refl, ground arith, store.tx.commit_publishes w after (ground arith))
  ]

  -- what a call that stored a resource under `id` did
  abbrev pub IsStored : Resource → Resource → Text → D → D → Type 0
  IsStored r s id before after =
      (created : ℕ) × (found : List Text) × (s
        ≡ record r { id = clean_uuid id; apps = map clean_uuid found; created_at = some created })
      × AreNamed names before r.apps found
      × (after
          ≡ put_links tables id found (
              tables.put_resource id r.provider_id r.external_id (env_hstore r.env) created before))

  insert_resource-IsStored :
      (r s : Resource) (w after : W)
      → insert_resource db r w ≡ (some s, after)
      → IsStored r s r.id (working w) (committed after)
  unfolding insert_resource
  insert_resource-IsStored r s w after h =
      let (inserted, w1) = db.insert r.id r.provider_id r.external_id (env_hstore r.env) w in
      elim (Option-cases (row_of (fix_row_err inserted))) [
        | inl e ↦ absurd (ground arith)
        | inr (created, e) ↦
            let (linked, w2) = link_apps db r.id r.apps w1 in
            let (apps, good, same, published) =
              commit_resource-some (record r { created_at = some created }) s linked w2 after
                (ground arith) in
            let (found, written, asked, work) =
              link_apps-some r.id r.apps apps w1 w2 (ground arith) in
            let stored =
              store.insert_row r.id r.provider_id r.external_id (env_hstore r.env) created w w1
                (ground (arith, row_of-some inserted created e)) in
            (
              created,
              found,
              ground arith,
              AreNamed-map db tables working names (working w1) (working w)
                  (λ a f h.
                    naming.resource_keeps r.id r.provider_id r.external_id (env_hstore r.env)
                      created a f (working w) (subst (λ d. names d a f) stored h))
                  r.apps found asked,
              published ∙ work ∙ ap (put_links tables r.id found) stored,
            )
      ]

  identified_same :
      (r : Resource) (w : W)
      → (id : Text) × ((r.id ≡ []) ⊎ (id ≡ r.id))
        × ((identified db uuid r w).0 ≡ record r { id = id })
  unfolding identified
  identified_same r w = elim (Bool-cases (r.id == [])) [
    | inl blank ↦ ((uuid w).0, inl ((eq_iff r.id []).0 blank), ground arith)
    | inr given ↦ (r.id, inr refl, ground arith)
  ]

  -- Where a transaction commits what its statements wrote, an Add without an error commits the
  -- resource, under the identifier that it had if any, and one link for each text that it had for
  -- an application, in their order, to the application that has the text as its identifier or its
  -- name, and nothing else. The resource is left with the identifiers of these applications,
  -- without dashes.
  pub add-IsStored :
      (r s : Resource) (w after : W)
      → add db uuid r w ≡ (some s, after)
      → (id : Text) × ((r.id ≡ []) ⊎ (id ≡ r.id)) × IsStored r s id (committed w) (committed after)
  unfolding add
  add-IsStored r s w after h =
      let (named, w1) = identified db uuid r w in
      let (id, given, same) = identified_same r w in
      elim (Bool-cases (db.tx.begin w1).0) [
        | inl bad ↦ absurd (ground arith)
        | inr good ↦
            let w2 = (db.tx.begin w1).1 in
            let stored = insert_resource-IsStored named s w2 after (ground arith) in
            let copied : working w2 ≡ committed w =
              store.tx.begin_copies w1 w2 (ground arith)
              ∙ identified_keeps db uuid tables committed working store r w in
            (
              id,
              given,
              subst (λ d. IsStored r s id d (committed after)) copied
                  (subst (λ (x : Resource). IsStored x s x.id (working w2) (committed after)) same
                    stored),
            )
      ]
