-- ===== src/Strings.antt =====
-- What the program uses of Go's `strings` package, at separators of one byte.
pub mod Laws
use flynn_controller.Prelude.{
  ℕ, Bool, true, false, ◌||◌, ◌&&◌, List, [], ◌∷◌, ◌++◌, Text, nat_eqb, if◌then◌else◌,
}

split_n2_from : ℕ → Text → Text → List Text
split_n2_from sep cur [] = cur ∷ []
split_n2_from sep cur (c ∷ s) =
    let rest = split_n2_from sep (cur ++ c ∷ []) s in if nat_eqb c sep then cur ∷ s ∷ [] else rest

-- strings.SplitN(s, sep, 2): the text before the first separator, and what follows it
unfoldable pub split_n2 : ℕ → Text → List Text
unfolding split_n2_from
split_n2 sep s = split_n2_from sep [] s

split_from : ℕ → Text → Text → List Text
split_from sep cur [] = cur ∷ []
split_from sep cur (c ∷ s) = elim (nat_eqb c sep) [
  | true ↦ cur ∷ split_from sep [] s
  | false ↦ split_from sep (cur ++ c ∷ []) s
]

-- strings.Split(s, sep)
unfoldable pub split : ℕ → Text → List Text
unfolding split_from
split sep s = split_from sep [] s

-- texts with the separator between them
abbrev pub join : ℕ → Text → List Text → Text
join sep x [] = x
join sep x (y ∷ ys) = x ++ sep ∷ join sep y ys

-- strings.Replace(s, string(c), "", -1)
unfoldable pub remove_all : ℕ → Text → Text
remove_all c [] = []
remove_all c (x ∷ s) = let rest = remove_all c s in if nat_eqb x c then rest else x ∷ rest

-- strings.TrimPrefix(s, string(c))
unfoldable pub trim_prefix : ℕ → Text → Text
trim_prefix c [] = []
trim_prefix c (x ∷ s) = if nat_eqb x c then s else x ∷ s

unfoldable pub has_prefix : Text → Text → Bool
has_prefix [] s = true
has_prefix (p ∷ ps) [] = false
has_prefix (p ∷ ps) (c ∷ s) = nat_eqb p c && has_prefix ps s

-- strings.Contains(s, sub)
unfoldable pub contains : Text → Text → Bool
unfolding has_prefix
contains sub [] = has_prefix sub []
contains sub (c ∷ s) = has_prefix sub (c ∷ s) || contains sub s
