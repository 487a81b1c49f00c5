-- ===== src/FormationRepo/Processes.antt =====
-- The counts of a formation, through the text of the hstore column and back.
use flynn_controller.Prelude.{
  ◌≡◌, refl, Bool-cases, inl, inr, [], ◌∷◌, Text, ltb, if◌then◌else◌, ℤ, pos_part, All,
}
use flynn_controller.Prelude.Map.{Map}
use flynn_controller.Decimal.RoundTrip.{IsInt, atoi-itoa, atoi-IsInt}
use flynn_controller.Decimal.{atoi}
use flynn_controller.Sql.{Hstore}
use flynn_controller.FormationRepo.{null_string, procs_hstore, scan_procs}

-- The entries whose count is positive.
unfoldable pub positive : Map Text ℤ → Map Text ℤ
positive [] = []
positive ((k, n) ∷ m) = let rest = positive m in if ltb 0 (pos_part n) then (k, n) ∷ rest else rest

-- Counts that fit Go's int are read back from the column, but those that are not positive are
-- left out.
pub scan_procs-procs_hstore :
    (m : Map Text ℤ)
    → All (λ (e : Text × ℤ). IsInt e.1) m
    → scan_procs (procs_hstore m) ≡ positive m
unfolding scan_procs procs_hstore positive
scan_procs-procs_hstore [] h = refl
scan_procs-procs_hstore ((k, n) ∷ m) h = rw (atoi-itoa n h.0, scan_procs-procs_hstore m h.1) refl

-- What is read from a column fits, and has positive counts only.
pub scan_procs-IsInt : (h : Hstore) → All (λ (e : Text × ℤ). IsInt e.1) (scan_procs h)
unfolding scan_procs
scan_procs-IsInt [] = tt
scan_procs-IsInt ((k, v) ∷ h) = elim (Bool-cases (ltb 0 (pos_part (atoi (null_string v))))) [
  | inl kept ↦ rw kept (atoi-IsInt (null_string v), scan_procs-IsInt h)
  | inr dropped ↦ rw dropped (scan_procs-IsInt h)
]

pub positive-scan_procs : (h : Hstore) → positive (scan_procs h) ≡ scan_procs h
unfolding scan_procs positive
positive-scan_procs [] = refl
positive-scan_procs ((k, v) ∷ h) = elim (Bool-cases (ltb 0 (pos_part (atoi (null_string v))))) [
  | inl kept ↦ rw (kept, positive) (rw (kept, positive-scan_procs h) refl)
  | inr dropped ↦ rw dropped (positive-scan_procs h)
]
