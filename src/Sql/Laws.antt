-- ===== src/Sql/Laws.antt =====
-- What the answers of statements say of the rows behind them.
use flynn_controller.Prelude.{
  ◌≡◌, refl, ap, ap₂, sym, ◌∙◌, Option, none, some, List, [], ◌∷◌, map, arith,
}
use flynn_controller.Sql.{
  Sql, row, no_rows, unique_violation, bad_uuid, failed, fix_row_err, Result, ok, not_found,
  failure, row_of, cons_result, scan_all,
}

pub row_of-some : {A : Type 0} (s : Sql A) (a : A) → row_of (fix_row_err s) ≡ some a → s ≡ row a
unfolding row_of fix_row_err
row_of-some (row b) a h = ground arith
row_of-some no_rows a h = absurd (ground arith)
row_of-some unique_violation a h = absurd (ground arith)
row_of-some bad_uuid a h = absurd (ground arith)
row_of-some failed a h = absurd (ground arith)

-- a read that finds a row which scans
pub fix_row_err-row :
    {R A W : Type 0} (f : Sql R → Result A) (read : Sql R × W) (r : R) (a : A) (w : W)
    → read ≡ (row r, w)
    → f (row r) ≡ ok a
    → ◌≡◌ {A = Result A × W} (f (fix_row_err read.0), read.1) (ok a, w)
unfolding fix_row_err
fix_row_err-row f read r a w e h = ap (λ p. (f (fix_row_err p.0), p.1)) e ∙ ap (λ x. (x, w)) h

cons_result-some :
    {A : Type 0} (x : Result A) (rest : Option (List A)) (l : List A)
    → cons_result x rest ≡ some l
    → (a : A) × (t : List A) × (x ≡ ok a) × (rest ≡ some t) × (l ≡ a ∷ t)
unfolding cons_result
cons_result-some (ok a) none l h = absurd (ground arith)
cons_result-some (ok a) (some t) l h = (a, t, refl, refl, ground arith)
cons_result-some not_found rest l h = absurd (ground arith)
cons_result-some failure rest l h = absurd (ground arith)

scan_all_sound :
    {R A : Type 0} (f : Sql R → Result A) (rows : List (Sql R)) (l : List A)
    → scan_all f rows ≡ some l
    → map f rows ≡ map ok l
unfolding scan_all
scan_all_sound {A = A} f [] l h = let e : ◌≡◌ {A = List A} [] l = cc in ap (map ok) e
scan_all_sound f (r ∷ rows) l h =
    let (a, t, scanned, rest, e) = cons_result-some (f r) (scan_all f rows) l h in
    ap₂ ◌∷◌ scanned (scan_all_sound f rows t rest) ∙ ap (map ok) (sym e)

scan_all_ok :
    {R A : Type 0} (f : Sql R → Result A) (rows : List (Sql R)) (l : List A)
    → map f rows ≡ map ok l
    → scan_all f rows ≡ some l
unfolding scan_all cons_result
scan_all_ok f [] [] h = refl
scan_all_ok f [] (a ∷ l) h = absurd (ground arith)
scan_all_ok f (r ∷ rows) [] h = absurd (ground arith)
scan_all_ok f (r ∷ rows) (a ∷ l) h =
    let head : f r ≡ ok a = cc in
    let tail : map f rows ≡ map ok l = cc in
    ap (λ x. cons_result x (scan_all f rows)) head
    ∙ ap (cons_result (ok a)) (scan_all_ok f rows l tail)
