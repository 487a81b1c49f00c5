-- ===== src/Resources/Arrays.antt =====
-- The text of an array of identifiers, as Postgres prints it.
use flynn_controller.Prelude.{
  ℕ, ◌≡◌, ◌≢◌, ◌∙◌, refl, ap, some, List, [], ◌∷◌, ◌++◌, map, Text, All, arith,
}
use flynn_controller.Strings
use flynn_controller.Strings.{join}
use flynn_controller.Strings.Laws.{Lacks, split-join}
use flynn_controller.Sql.{clean_uuid}
use flynn_controller.Resources.{split, but_last, apps_of}

-- {a,b,c}
abbrev pub array_text : List Text → Text
array_text [] = b'{' ∷ b'}' ∷ []
array_text (x ∷ xs) = b'{' ∷ join b',' x xs ++ b'}' ∷ []

but_last-append : (s : Text) (c : ℕ) → but_last (s ++ c ∷ []) ≡ s
unfolding but_last
but_last-append [] c = refl
but_last-append (d ∷ []) c = refl
but_last-append (d ∷ e ∷ s) c = ap (λ t. d ∷ t) (but_last-append (e ∷ s) c)

join-ne-nil : (x : Text) (xs : List Text) → x ≢ [] → join b',' x xs ≢ []
join-ne-nil [] xs h e = h refl
join-ne-nil (c ∷ x) [] h e = ground arith
join-ne-nil (c ∷ x) (y ∷ ys) h e = ground arith

apps_of_braces :
    (s : Text)
    → s ≢ []
    → apps_of (b'{' ∷ s ++ b'}' ∷ []) ≡ some (map clean_uuid (Strings.split b',' s))
unfolding apps_of split
apps_of_braces [] h = absurd (h refl)
apps_of_braces (c ∷ s) h = ap (λ t. some (map clean_uuid (split t))) (but_last-append (c ∷ s) b'}')

-- The text of an array of identifiers, none empty and none with a comma, is read as the
-- identifiers without dashes, in the order of the array.
pub apps_of-array_text :
    (ids : List Text)
    → All (λ id. (id ≢ []) × Lacks b',' id) ids
    → apps_of (array_text ids) ≡ some (map clean_uuid ids)
unfolding apps_of split but_last
apps_of-array_text [] h = refl
apps_of-array_text (x ∷ xs) h =
    apps_of_braces (join b',' x xs) (join-ne-nil x xs h.0.0)
    ∙ ap (λ l. some (map clean_uuid l)) (split-join b',' x xs h.0.1 (commas xs h.1))
  where
    commas : (l : List Text) → All (λ id. (id ≢ []) × Lacks b',' id) l → All (Lacks b',') l
    commas [] h = tt
    commas (y ∷ ys) h = (h.0.1, commas ys h.1)
