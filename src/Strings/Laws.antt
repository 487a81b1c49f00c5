-- ===== src/Strings/Laws.antt =====
-- Laws of the string functions.
use flynn_controller.Prelude.{
  ℕ, ◌≡◌, refl, ap, ◌∙◌, List, ◌≢◌, [], ◌∷◌, ◌++◌, append_assoc, append-nil, Text, nat_eqb,
  Bool-cases, inl, inr, All, arith,
}
use flynn_controller.Strings.{split_n2_from, split_n2, split_from, split, join, remove_all}

-- No byte of the text is `c`.
abbrev pub Lacks : ℕ → Text → Type 0
Lacks c = All (λ x. x ≢ c)

split_n2_from-append :
    (sep : ℕ) (a cur b : Text)
    → Lacks sep a
    → split_n2_from sep cur (a ++ sep ∷ b) ≡ (cur ++ a) ∷ b ∷ []
unfolding split_n2_from
split_n2_from-append sep [] cur b h = ground (arith, append-nil cur)
split_n2_from-append sep (c ∷ a) cur b h =
    ground (arith, split_n2_from-append sep a (cur ++ c ∷ []) b h.1, append_assoc cur (c ∷ []) a)

-- A text without the separator, the separator and any text are split into the two texts.
pub split_n2-append :
    (sep : ℕ) (a b : Text) → Lacks sep a → split_n2 sep (a ++ sep ∷ b) ≡ a ∷ b ∷ []
unfolding split_n2
split_n2-append sep a b h = split_n2_from-append sep a [] b h

split_n2_from_sound :
    (sep : ℕ) (cur s a b : Text)
    → split_n2_from sep cur s ≡ a ∷ b ∷ []
    → (x : Text) × (a ≡ cur ++ x) × (s ≡ x ++ sep ∷ b) × Lacks sep x
unfolding split_n2_from
split_n2_from_sound sep cur [] a b h = cc
split_n2_from_sound sep cur (c ∷ s) a b h = elim (Bool-cases (nat_eqb c sep)) [
  | inl hit ↦ ([], ground (arith, append-nil cur), ground arith, tt)
  | inr other ↦
      let (x, ea, es, lacks) = split_n2_from_sound sep (cur ++ c ∷ []) s a b (ground arith) in
      (c ∷ x, ground (arith, append_assoc cur (c ∷ []) x), ground arith, (ground arith, lacks))
]

-- A split into two spells the text, and the first part has no separator.
pub split_n2_sound :
    (sep : ℕ) (s a b : Text) → split_n2 sep s ≡ a ∷ b ∷ [] → (s ≡ a ++ sep ∷ b) × Lacks sep a
unfolding split_n2
split_n2_sound sep s a b h =
    let (x, ea, es, lacks) = split_n2_from_sound sep [] s a b h in (ground arith, ground arith)

pub remove_all-Lacks : (c : ℕ) (s : Text) → Lacks c (remove_all c s)
unfolding remove_all
remove_all-Lacks c [] = tt
remove_all-Lacks c (x ∷ s) = ground (arith, remove_all-Lacks c s)

pub remove_all_of_Lacks : (c : ℕ) (s : Text) → Lacks c s → remove_all c s ≡ s
unfolding remove_all
remove_all_of_Lacks c [] h = refl
remove_all_of_Lacks c (x ∷ s) h = ground (arith, remove_all_of_Lacks c s h.1)

split_from-append :
    (sep : ℕ) (a cur b : Text)
    → Lacks sep a
    → split_from sep cur (a ++ sep ∷ b) ≡ (cur ++ a) ∷ split_from sep [] b
unfolding split_from
split_from-append sep [] cur b h = ground (arith, append-nil cur)
split_from-append sep (c ∷ a) cur b h =
    ground (arith, split_from-append sep a (cur ++ c ∷ []) b h.1, append_assoc cur (c ∷ []) a)

split_from_of_Lacks :
    (sep : ℕ) (a cur : Text) → Lacks sep a → split_from sep cur a ≡ (cur ++ a) ∷ []
unfolding split_from
split_from_of_Lacks sep [] cur h = ground (arith, append-nil cur)
split_from_of_Lacks sep (c ∷ a) cur h =
    ground (arith, split_from_of_Lacks sep a (cur ++ c ∷ []) h.1, append_assoc cur (c ∷ []) a)

pub split-append : (sep : ℕ) (a b : Text) → Lacks sep a → split sep (a ++ sep ∷ b) ≡ a ∷ split sep b
unfolding split
split-append sep a b h = split_from-append sep a [] b h

pub split_of_Lacks : (sep : ℕ) (a : Text) → Lacks sep a → split sep a ≡ a ∷ []
unfolding split
split_of_Lacks sep a h = split_from_of_Lacks sep a [] h

pub split-join :
    (sep : ℕ) (x : Text) (xs : List Text)
    → Lacks sep x
    → All (Lacks sep) xs
    → split sep (join sep x xs) ≡ x ∷ xs
split-join sep x [] h hs = split_of_Lacks sep x h
split-join sep x (y ∷ ys) h hs =
    split-append sep x (join sep y ys) h ∙ ap (λ l. x ∷ l) (split-join sep y ys hs.0 hs.1)
