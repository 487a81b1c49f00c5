-- ===== src/Tests/Table.antt =====
-- A table of formations: a map from the two identifiers, in which a row that is marked as deleted
-- has no processes.
use flynn_controller.Prelude.{
  ℕ, ◌≡◌, ◌≢◌, refl, ap, sym, subst, ◌∙◌, Bool, false, Option, none, some, List, [], ◌∷◌, Text,
  text_eq, pair_eq, list_eqb, ◌==◌, if◌then◌else◌, arith, Option-cases, inl, inr,
}
use flynn_controller.Prelude.Map
use flynn_controller.Prelude.Map.{Map, get-put_self, get-put_ne}
use flynn_controller.Sql.{Sql, row, no_rows, unique_violation, Hstore, clean_uuid}
use flynn_controller.FormationRepo.{Row, Statements}
use flynn_controller.FormationRepo.Storing.{IsTable, Stored}

abbrev pub World : Type 0
World = Map (Text × Text) (Option Hstore)

abbrev pub row_of : Text × Text → Hstore → Row
row_of k h = record {
  app_id = k.0;
  release_id = k.1;
  processes = h;
  created_at = 1;
  updated_at = 1;
}

unfoldable pub select_at : Text × Text → World → Sql Row
unfolding Map.get list_eqb
select_at k w = elim (Map.get k w) [
  | none ↦ no_rows
  | some o ↦ elim o [ none ↦ no_rows | some h ↦ row (row_of k h) ]
]

unfoldable pub insert_at : Text × Text → Hstore → World → Sql (ℕ × ℕ) × World
unfolding Map.get Map.put list_eqb
insert_at k h w = elim (Map.get k w) [
  | none ↦ (row (1, 1), Map.put k (some h) w)
  | some o ↦ (unique_violation, w)
]

unfoldable pub rows_of : Text → World → List (Sql Row)
unfolding list_eqb
rows_of a [] = []
rows_of a ((k, none) ∷ w) = rows_of a w
rows_of a ((k, some h) ∷ w) =
    let rest = rows_of a w in if k.0 == a then row (row_of k h) ∷ rest else rest

abbrev pub table : Statements World
table = record {
  insert = λ a r h w. insert_at (a, r) h w;
  revive = λ a r h w. (row (1, 1), Map.put (a, r) (some h) w);
  select = λ a r w. (select_at (a, r) w, w);
  select_app = λ a w. (some (rows_of a w), w);
  tombstone = λ a r w. (false, Map.put (a, r) none w);
}

select_at_of_get :
    (k : Text × Text) (w : World) (h : Hstore)
    → Map.get k w ≡ some (some h)
    → select_at k w ≡ row (row_of k h)
unfolding select_at
select_at_of_get k w h e = rw (e, select_at)

insert_at_stores :
    (k : Text × Text) (h : Hstore) (t : ℕ × ℕ) (w after : World)
    → insert_at k h w ≡ (row t, after)
    → (t ≡ (1, 1)) × (after ≡ Map.put k (some h) w)
unfolding insert_at
insert_at_stores k h t w after e = elim (Option-cases (Map.get k w)) [
  | inl fresh ↦ ground arith
  | inr (o, taken) ↦ absurd (ground arith)
]

put_stores :
    (a r : Text) (h : Hstore) (t : ℕ × ℕ) (w after : World)
    → t ≡ (1, 1)
    → after ≡ Map.put (a, r) (some h) w
    → Stored table a r h t after
put_stores a r h t w after et ew = (
  row_of (a, r) h,
  ap (λ s. (s, after))
      (select_at_of_get (a, r) after h (ap (Map.get (a, r)) ew ∙ get-put_self (a, r) (some h) w)),
  (refl, refl),
  refl,
  sym (ap (λ (p : ℕ × ℕ). p.0) et),
  sym (ap (λ (p : ℕ × ℕ). p.1) et),
)

keys_differ : (a r s : Text) → clean_uuid r ≢ clean_uuid s → ◌≢◌ {A = Text × Text} (a, r) (a, s)
keys_differ a r s h e = h (ap (λ (p : Text × Text). clean_uuid p.1) e)

select_at-put-none : (k : Text × Text) (w : World) → select_at k (Map.put k none w) ≡ no_rows
unfolding select_at
select_at-put-none k w = rw (get-put_self k none w, select_at)

select_at-put_other :
    (k j : Text × Text) (o : Option Hstore) (w : World)
    → k ≢ j
    → select_at j (Map.put k o w) ≡ select_at j w
unfolding select_at
select_at-put_other k j o w h = rw (get-put_ne k j o w h, select_at)

abbrev pub times : Sql (ℕ × ℕ) → ℕ × ℕ
times (row t) = t
times _ = (0, 0)

pub table-IsTable : IsTable table
table-IsTable = record {
  insert_select = λ a r h t w after e.
      (let (et, ew) = insert_at_stores (a, r) h t w after e in put_stores a r h t w after et ew);
  revive_select = λ a r h t w after e.
      put_stores a r h t w after (sym (ap (λ (p : Sql (ℕ × ℕ) × World). times p.0) e))
        (sym (ap (λ (p : Sql (ℕ × ℕ) × World). p.1) e));
  tombstone_select = λ a r w after e.
      subst (λ x. table.select a r x ≡ (no_rows, x)) (ap (λ (p : Bool × World). p.1) e)
        (ap (λ x. (x, Map.put (a, r) none w)) (select_at-put-none (a, r) w));
  tombstone_other = λ a r s w after bad found e other read.
      subst (λ x. table.select a s x ≡ (row found, x)) (ap (λ (p : Bool × World). p.1) e)
        (ap (λ x. (x, Map.put (a, r) none w))
          (select_at-put_other (a, r) (a, s) none w (keys_differ a r s other)
            ∙ ap (λ (p : Sql Row × World). p.0) read));
}
