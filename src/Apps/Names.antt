-- ===== src/Apps/Names.antt =====
-- The names that AppRepo.Add accepts.
use flynn_controller.Prelude.{ℕ, ◌≡◌, ◌⊎◌, ◌≤◌, text_eq}
use flynn_controller.Sql.{Sql}

-- The byte is a small letter, a digit or a dash.
abbrev pub IsNameByte : ℕ → Type 0
IsNameByte c = ((b'a' ≤ c) × (c ≤ b'z')) ⊎ (((b'0' ≤ c) × (c ≤ b'9')) ⊎ (c ≡ b'-'))
