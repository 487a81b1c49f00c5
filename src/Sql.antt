-- ===== src/Sql.antt =====
-- db.go: what the repositories see of the database. A statement is a function of the world; what
-- Postgres answers to it is one of the cases below, as far as the code tells them apart.
pub mod Laws
pub mod Transactions
use flynn_controller.Prelude.{
  Option, none, some, Bool, List, [], ◌∷◌, if◌then◌else◌, Text, ℕ, leb, nat_eqb, ◌&&◌, ◌||◌, all,
  ◌≡◌, true,
}
use flynn_controller.Prelude.Map.{Map}
use flynn_controller.Strings.{remove_all}

-- `bad_uuid` is the error invalid_text_representation of string_to_uuid in uuid.c.
pub data Sql (A : Type 0) : Type 0 where
  row : A → Sql A
  no_rows unique_violation bad_uuid failed : Sql A

-- rowErrFixer.Scan
unfoldable pub fix_row_err : {A : Type 0} → Sql A → Sql A
fix_row_err (row a) = row a
fix_row_err no_rows = no_rows
fix_row_err unique_violation = unique_violation
fix_row_err bad_uuid = no_rows
fix_row_err failed = failed

-- What a method of a repository returns: a value, ErrNotFound or another error.
pub data Result (A : Type 0) : Type 0 where
  ok : A → Result A
  not_found failure : Result A

-- hstore.Hstore: a value may be null
abbrev pub Hstore : Type 0
Hstore = Map Text (Option Text)

-- the strings of an hstore; that of a null is empty
unfoldable pub strings_of : Hstore → Map Text Text
strings_of [] = []
strings_of ((k, none) ∷ m) = (k, []) ∷ strings_of m
strings_of ((k, some v) ∷ m) = (k, v) ∷ strings_of m

-- cleanUUID
unfoldable pub clean_uuid : Text → Text
unfolding remove_all
clean_uuid = remove_all b'-'

abbrev pub simple_byte : ℕ → Bool
simple_byte c = (leb b'0' c && leb c b'9') || (leb b'a' c && leb c b'z') || nat_eqb c b'-'

unfoldable pub is_simple : Text → Bool
unfolding all
is_simple = all simple_byte

-- Digits, letters in lower case and dashes. Postgres takes an identifier in upper case or in
-- braces, too, and prints it in lower case and without them: only a simple one is read back as it
-- was given, up to the dashes.
abbrev pub IsSimple : Text → Type 0
IsSimple s = is_simple s ≡ true

-- A returned value, with any error made `none`.
unfoldable pub row_of : {A : Type 0} → Sql A → Option A
row_of (row a) = some a
row_of no_rows = none
row_of unique_violation = none
row_of bad_uuid = none
row_of failed = none

unfoldable pub cons_result : {A : Type 0} → Result A → Option (List A) → Option (List A)
cons_result (ok a) none = none
cons_result (ok a) (some l) = some (a ∷ l)
cons_result not_found rest = none
cons_result failure rest = none

-- The loop over the rows of a query, which stops at the first row that does not scan.
unfoldable pub scan_all : {R A : Type 0} → (Sql R → Result A) → List (Sql R) → Option (List A)
unfolding cons_result
scan_all f [] = some []
scan_all f (r ∷ rows) = cons_result (f r) (scan_all f rows)

-- What a query answers: an error, or its rows and whether reading them ended in an error.
abbrev pub Rows : Type 0 → Type 0
Rows R = Option (List (Sql R) × Bool)

-- The List methods that return rows.Err().
unfoldable pub list_of : {R A : Type 0} → (Sql R → Result A) → Rows R → Option (List A)
unfolding scan_all
list_of f none = none
list_of f (some (rows, broken)) = if broken then none else scan_all f rows
