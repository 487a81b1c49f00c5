-- ===== src/Providers/Storing.antt =====
-- ProviderRepo over a table.
use flynn_controller.Prelude.{
  ◌≡◌, ◌≢◌, ◌∙◌, refl, ap, sym, true, false, Option, none, some, Text, text_eq, ◌==◌, ◌||◌, eq_iff,
  [], arith, Bool-cases, inl, inr,
}
use flynn_controller.Types.{Provider}
use flynn_controller.Ids.{matches_id}
use flynn_controller.Sql.{row, fix_row_err, ok, clean_uuid, row_of}
use flynn_controller.Sql.Laws.{row_of-some, fix_row_err-row}
use flynn_controller.Providers.{
  Row, Inserted, Statements, provider_of_row, scan_provider, stored_provider, add, select_row, get,
}

module _ {W : Type 0} (db : Statements W) where
  -- what the INSERT of a provider wrote
  abbrev pub Shows : Row → Text → Text → Inserted → Type 0
  Shows r name url i =
      (r.id ≡ i.id)
      × (r.name ≡ name)
      × (r.url ≡ url)
      × (r.created_at ≡ i.created_at)
      × (r.updated_at ≡ i.updated_at)

  -- What the code relies on: an inserted row is found by its name, and by its identifier without
  -- dashes.
  pub record IsTable : Type 0 where
    pub insert_named :
        (name url : Text) (i : Inserted) (w after : W)
        → db.insert name url w ≡ (row i, after)
        → (r : Row) × (db.select_named name after ≡ (row r, after)) × Shows r name url i
    pub insert_known :
        (name url : Text) (i : Inserted) (w after : W)
        → db.insert name url w ≡ (row i, after)
        → (r : Row) × (db.select_known (clean_uuid i.id) after ≡ (row r, after))
          × Shows r name url i

  stored_provider-some :
      (p s : Provider) (o : Option Inserted)
      → stored_provider p o ≡ some s
      → (i : Inserted) × (o ≡ some i)
        × (s ≡ record p {
          id = clean_uuid i.id;
          created_at = some i.created_at;
          updated_at = some i.updated_at;
        })
  unfolding stored_provider
  stored_provider-some p s none h = absurd (ground arith)
  stored_provider-some p s (some i) h = (i, refl, ground arith)

  add_inserted :
      (p s : Provider) (w after : W)
      → add db p w ≡ (some s, after)
      → (i : Inserted) × (p.name ≢ [])
        × (p.url ≢ [])
        × (db.insert p.name p.url w ≡ (row i, after))
        × (s ≡ record p {
          id = clean_uuid i.id;
          created_at = some i.created_at;
          updated_at = some i.updated_at;
        })
  unfolding add
  add_inserted p s w after h = elim (Bool-cases (p.name == [] || p.url == [])) [
    | inl blank ↦ absurd (ground arith)
    | inr given ↦
        let (inserted, w1) = db.insert p.name p.url w in
        let (i, got, same) =
          stored_provider-some p s (row_of (fix_row_err inserted)) (ground arith) in
        (
          i,
          (λ e. ground (arith, eq_iff p.name [])),
          (λ e. ground (arith, eq_iff p.url [])),
          ground (arith, row_of-some inserted i got),
          same,
        )
  ]

  get_shown :
      (id : Text) (p s : Provider) (i : Inserted) (r : Row) (w : W)
      → s ≡ record p {
        id = clean_uuid i.id;
        created_at = some i.created_at;
        updated_at = some i.updated_at;
      }
      → select_row db id w ≡ (row r, w)
      → Shows r p.name p.url i
      → get db id w ≡ (ok s, w)
  unfolding get scan_provider fix_row_err provider_of_row
  get_shown id p s i r w same read shows =
      fix_row_err-row scan_provider (select_row db id w) r s w read (ap ok (ground arith))

  module _ (table : IsTable) where
    -- A provider that was added without an error has a name and an URL, and is found, as the call
    -- left it, by its identifier if idPattern matches it.
    pub add-get_provider :
        (p s : Provider) (w after : W)
        → add db p w ≡ (some s, after)
        → matches_id s.id ≡ true
        → (s.name ≢ []) × (s.url ≢ []) × (get db s.id after ≡ (ok s, after))
    unfolding select_row
    add-get_provider p s w after h known =
        let (i, named, located, inserted, same) = add_inserted p s w after h in
        let (r, read, shows) = table.insert_known p.name p.url i w after inserted in
        let id : s.id ≡ clean_uuid i.id = ap (λ (x : Provider). x.id) same in
        (
          (λ e. named (sym (ap (λ (x : Provider). x.name) same) ∙ e)),
          (λ e. located (sym (ap (λ (x : Provider). x.url) same) ∙ e)),
          ap (λ x. get db x after) id
              ∙ get_shown (clean_uuid i.id) p s i r after same
                  (rw (sym (ap matches_id id) ∙ known) read) shows,
        )

    -- It is found by its name, too, if idPattern does not match the name.
    pub add-get_named_provider :
        (p s : Provider) (w after : W)
        → add db p w ≡ (some s, after)
        → matches_id s.name ≡ false
        → get db s.name after ≡ (ok s, after)
    unfolding select_row
    add-get_named_provider p s w after h other =
        let (i, named, located, inserted, same) = add_inserted p s w after h in
        let (r, read, shows) = table.insert_named p.name p.url i w after inserted in
        let name : s.name ≡ p.name = ap (λ (x : Provider). x.name) same in
        ap (λ x. get db x after) name
        ∙ get_shown p.name p s i r after same (rw (sym (ap matches_id name) ∙ other) read) shows
