-- ===== src/Keys/Storing.antt =====
-- KeyRepo over a table.
use flynn_controller.Prelude.{
  ℕ, ◌≡◌, ◌∙◌, refl, ap, sym, false, Option, none, some, Text, text_eq, ◌==◌, [], arith,
  Option-cases, Bool-cases, inl, inr,
}
use flynn_controller.Types.{Key}
use flynn_controller.Sql.{Sql, row, no_rows, fix_row_err, ok, not_found, row_of}
use flynn_controller.Sql.Laws.{row_of-some, fix_row_err-row}
use flynn_controller.Keys.{
  Ssh, Row, Statements, key_of_row, scan_key, parsed_key, dated, insert_key, add, get, remove,
}

module _ {W : Type 0} (db : Statements W) where
  -- What the code relies on: an inserted row is read, and one marked as deleted is not found.
  pub record IsTable : Type 0 where
    pub insert_select :
        (id key comment : Text) (created : ℕ) (w after : W)
        → db.insert id key comment w ≡ (row created, after)
        → (found : Row) × (db.select id after ≡ (row found, after))
          × (key_of_row found
              ≡ record { id = id; key = key; comment = comment; created_at = some created })
    pub tombstone_select :
        (id : Text) (w after : W)
        → db.tombstone id w ≡ (false, after)
        → db.select id after ≡ (no_rows, after)

  dated-some :
      (k s : Key) (o : Option ℕ)
      → dated k o ≡ some s
      → (created : ℕ) × (o ≡ some created) × (s ≡ record k { created_at = some created })
  dated-some k s none h = absurd (ground arith)
  dated-some k s (some created) h = (created, refl, ground arith)

  module _ (table : IsTable) where
    insert_key-get :
        (k s : Key) (w after : W)
        → insert_key db k w ≡ (some s, after)
        → get db s.id after ≡ (ok s, after)
    unfolding insert_key get scan_key fix_row_err
    insert_key-get k s w after h =
        let (inserted, w1) = db.insert k.id k.key k.comment w in
        let (created, got, same) =
          dated-some k s (row_of (fix_row_err inserted)) (ap (λ (p : Option Key × W). p.0) h) in
        let known = row_of-some inserted created got in
        let (found, read, shown) =
          table.insert_select k.id k.key k.comment created w after (ground arith) in
        ap (λ (x : Key). get db x.id after) same
        ∙ fix_row_err-row scan_key (db.select k.id after) found s after read
            (ap ok (shown ∙ sym same))

    -- Over a table that keeps what it is given, a key that was added without an error is found by
    -- the identifier that the call gave it, as the call left it.
    pub add-get_key :
        {P : Type 0} (ssh : Ssh P) (k s : Key) (w after : W)
        → add db ssh k w ≡ (some s, after)
        → get db s.id after ≡ (ok s, after)
    unfolding add
    add-get_key ssh k s w after h = elim (Bool-cases (k.key == [])) [
      | inl blank ↦ absurd (ground arith)
      | inr given ↦ elim (Option-cases (ssh.parse k.key)) [
        | inl bad ↦ absurd (ground arith)
        | inr ((public, comment), e) ↦
            insert_key-get (parsed_key ssh public comment) s w after (ground arith)
      ]
    ]

    -- A key that was removed without an error is not found.
    pub remove-get_key :
        (id : Text) (w after : W)
        → remove db id w ≡ (false, after)
        → get db id after ≡ (not_found, after)
    unfolding remove get scan_key fix_row_err
    remove-get_key id w after h =
        ap (λ (p : Sql Row × W). (scan_key (fix_row_err p.0), p.1))
          (table.tombstone_select id w after h)
