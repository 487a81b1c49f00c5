-- ===== src/FormationRepo/Storing.antt =====
-- FormationRepo over a table: what Postgres documents of the statements is `IsTable`, and the
-- repository then stores, finds and removes formations.
use flynn_controller.Prelude.{
  ℕ, ◌≡◌, ◌≢◌, ◌∙◌, refl, ap, sym, Bool, false, some, Text, ℤ, All, arith,
}
use flynn_controller.Types.{Formation}
use flynn_controller.Decimal.RoundTrip.{IsInt}
use flynn_controller.Sql.{
  Sql, row, no_rows, unique_violation, bad_uuid, failed, fix_row_err, Result, ok, not_found, Hstore,
  clean_uuid,
}
use flynn_controller.FormationRepo.{
  Row, Statements, procs_hstore, formation_of_row, scan_procs, scan_formation, with_times,
  insert_or_update, add, get, remove,
}
use flynn_controller.FormationRepo.Processes.{positive, scan_procs-procs_hstore}

-- A row of the table that the two identifiers name; Postgres prints them with dashes.
abbrev pub Names : Text → Text → Row → Type 0
Names a r found =
    (clean_uuid found.app_id ≡ clean_uuid a) × (clean_uuid found.release_id ≡ clean_uuid r)

-- The formation has the identifiers without dashes.
abbrev pub AreIds : Text → Text → Formation → Type 0
AreIds a r f = (f.app_id ≡ clean_uuid a) × (f.release_id ≡ clean_uuid r)

module _ {W : Type 0} (db : Statements W) where
  -- A read finds the row with the processes and the times.
  abbrev pub Stored : Text → Text → Hstore → ℕ × ℕ → W → Type 0
  Stored a r h (created, updated) w =
      (found : Row) × (db.select a r w ≡ (row found, w))
      × Names a r found
      × (found.processes ≡ h)
      × (found.created_at ≡ created)
      × (found.updated_at ≡ updated)

  -- What the code relies on: a write that returned its row is read back, a row marked as deleted
  -- is not found, and marking one leaves the rows of other releases.
  pub record IsTable : Type 0 where
    pub insert_select :
        (a r : Text) (h : Hstore) (t : ℕ × ℕ) (w after : W)
        → db.insert a r h w ≡ (row t, after)
        → Stored a r h t after
    pub revive_select :
        (a r : Text) (h : Hstore) (t : ℕ × ℕ) (w after : W)
        → db.revive a r h w ≡ (row t, after)
        → Stored a r h t after
    pub tombstone_select :
        (a r : Text) (w after : W)
        → db.tombstone a r w ≡ (false, after)
        → db.select a r after ≡ (no_rows, after)
    pub tombstone_other :
        (a r s : Text) (w after : W) (failed : Bool) (found : Row)
        → db.tombstone a r w ≡ (failed, after)
        → clean_uuid r ≢ clean_uuid s
        → db.select a s w ≡ (row found, w)
        → db.select a s after ≡ (row found, after)

  abbrev pub timed : Formation → ℕ × ℕ → Formation
  timed f (created, updated) = record f { created_at = some created; updated_at = some updated }

  with_times_sound :
      (f g : Formation) (s : Sql (ℕ × ℕ))
      → with_times f s ≡ ok g
      → (t : ℕ × ℕ) × (s ≡ row t) × (g ≡ timed f t)
  unfolding with_times
  with_times_sound f g (row t) h = (t, refl, ground arith)
  with_times_sound f g no_rows h = absurd (ground arith)
  with_times_sound f g unique_violation h = absurd (ground arith)
  with_times_sound f g bad_uuid h = absurd (ground arith)
  with_times_sound f g failed h = absurd (ground arith)

  fix_row_err_row : (s : Sql (ℕ × ℕ)) (t : ℕ × ℕ) → fix_row_err s ≡ row t → s ≡ row t
  unfolding fix_row_err
  fix_row_err_row (row u) t h = h
  fix_row_err_row no_rows t h = h
  fix_row_err_row unique_violation t h = h
  fix_row_err_row bad_uuid t h = absurd (ground arith)
  fix_row_err_row failed t h = h

  -- What a read of a stored row answers.
  pub get_of_Stored :
      (a r : Text) (h : Hstore) (t : ℕ × ℕ) (w : W)
      → Stored a r h t w
      → (f : Formation) × (get db a r w ≡ (ok f, w))
        × AreIds a r f
        × (f.processes ≡ scan_procs h)
        × (f.created_at ≡ some t.0)
        × (f.updated_at ≡ some t.1)
  unfolding get scan_formation fix_row_err formation_of_row
  get_of_Stored a r h (created, updated) w (found, read, (an, rn), hn, cn, un) =
      (formation_of_row found, rw read refl, (an, rn), ap scan_procs hn, ap some cn, ap some un)

  module _ (table : IsTable) where
    insert_or_update_stores :
        (f g : Formation) (h : Hstore) (inserted : Sql (ℕ × ℕ)) (w before after : W)
        → db.insert f.app_id f.release_id h before ≡ (inserted, w)
        → insert_or_update db f h (fix_row_err inserted, w) ≡ (ok g, after)
        → (t : ℕ × ℕ) × (g ≡ timed f t) × Stored f.app_id f.release_id h t after
    unfolding insert_or_update fix_row_err
    insert_or_update_stores f g h (row t) w before after done e =
        (t, ground arith, table.insert_select f.app_id f.release_id h t before after (ground arith))
    insert_or_update_stores f g h no_rows w before after done e = absurd (ground arith)
    insert_or_update_stores f g h unique_violation w before after done e =
        let (updated, w1) = db.revive f.app_id f.release_id h w in
        let (t, returned, same) =
          with_times_sound f g (fix_row_err updated) (ap (λ (p : Result Formation × W). p.0) e) in
        let found = fix_row_err_row updated t returned in
        (t, same, table.revive_select f.app_id f.release_id h t w after (ground arith))
    insert_or_update_stores f g h bad_uuid w before after done e = absurd (ground arith)
    insert_or_update_stores f g h failed w before after done e = absurd (ground arith)

    pub add_stores :
        (f g : Formation) (w after : W)
        → add db f w ≡ (ok g, after)
        → (t : ℕ × ℕ) × (g ≡ timed f t)
          × Stored f.app_id f.release_id (procs_hstore f.processes) t after
    unfolding add
    add_stores f g w after e =
        let h = procs_hstore f.processes in
        let (inserted, w1) = db.insert f.app_id f.release_id h w in
        insert_or_update_stores f g h inserted w1 w after refl e

    -- Over a table that keeps what is written, a formation that was added without an error, new or
    -- in place of one of the same application and release, is found afterwards: with the
    -- identifiers without dashes, with the counts that are positive, and with the times that the
    -- call wrote into it. The counts must fit Go's int.
    pub add-get :
        (f g : Formation) (w after : W)
        → All (λ (e : Text × ℤ). IsInt e.1) f.processes
        → add db f w ≡ (ok g, after)
        → (found : Formation) × (get db f.app_id f.release_id after ≡ (ok found, after))
          × AreIds f.app_id f.release_id found
          × (found.processes ≡ positive f.processes)
          × (found.created_at ≡ g.created_at)
          × (found.updated_at ≡ g.updated_at)
    add-get f g w after fits e =
        let (t, same, stored) = add_stores f g w after e in
        let (found, read, ids, processes, created, updated) =
          get_of_Stored f.app_id f.release_id (procs_hstore f.processes) t after stored in
        (
          found,
          read,
          ids,
          processes ∙ scan_procs-procs_hstore f.processes fits,
          created ∙ sym (ap (λ (x : Formation). x.created_at) same),
          updated ∙ sym (ap (λ (x : Formation). x.updated_at) same),
        )

    -- A removed formation is not found.
    pub remove-get :
        (a r : Text) (w after : W)
        → remove db a r w ≡ (false, after)
        → get db a r after ≡ (not_found, after)
    unfolding remove get fix_row_err scan_formation
    remove-get a r w after e = rw (table.tombstone_select a r w after e) refl
