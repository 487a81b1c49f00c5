-- ===== src/Ids/Pattern.antt =====
-- The texts that idPattern takes for identifiers.
use flynn_controller.Prelude.{
  ℕ, zero, suc, ◌+◌, ◌*◌, ◌≤◌, ◌≡◌, ◌∙◌, refl, ap, true, Option, none, some, [], ◌∷◌, ◌++◌, Text,
  arith, All, length, nat_eqb, Bool-cases, inl, inr, drop, length-drop, length-append,
}
use flynn_controller.Strings.{remove_all}
use flynn_controller.Strings.Laws.{Lacks, remove_all_of_Lacks}
use flynn_controller.Sql.{clean_uuid}
use flynn_controller.Ids.{is_hex, hex_run, optional_dash, is_end, matches_groups, matches_id}

abbrev pub IsHex : Text → Type 0
IsHex = All (λ c. is_hex c ≡ true)

-- 32 hexadecimal digits in lower case.
abbrev pub IsCleanId : Text → Type 0
IsCleanId s = IsHex s × (length s ≡ 32)

pub IsHex-Lacks : (s : Text) → IsHex s → Lacks b'-' s
IsHex-Lacks [] h = tt
IsHex-Lacks (c ∷ s) h = ((λ e. ground arith), IsHex-Lacks s h.1)

IsHex-append : (s t : Text) → IsHex s → IsHex t → IsHex (s ++ t)
IsHex-append [] t h g = g
IsHex-append (c ∷ s) t h g = (h.0, IsHex-append s t h.1 g)

pub clean_of_IsHex : (s : Text) → IsHex s → clean_uuid s ≡ s
unfolding clean_uuid
clean_of_IsHex s h = remove_all_of_Lacks b'-' s (IsHex-Lacks s h)

drop-IsHex : (n : ℕ) (s : Text) → IsHex s → IsHex (drop n s)
drop-IsHex zero s h = h
drop-IsHex (suc n) [] h = tt
drop-IsHex (suc n) (c ∷ s) h = drop-IsHex n s h.1

hex_run-drop : (n : ℕ) (s : Text) → IsHex s → n ≤ length s → hex_run n s ≡ some (drop n s)
unfolding hex_run
hex_run-drop zero s h le = refl
hex_run-drop (suc n) [] h le = absurd (omega arith)
hex_run-drop (suc n) (c ∷ s) h le = rw h.0 (hex_run-drop n s h.1 (omega arith))

optional_dash_of_IsHex : (s : Text) → IsHex s → optional_dash s ≡ s
unfolding optional_dash
optional_dash_of_IsHex [] h = refl
optional_dash_of_IsHex (c ∷ s) h = ground arith

length-zero : (s : Text) → length s ≡ 0 → s ≡ []
length-zero [] e = refl
length-zero (c ∷ s) e = absurd (omega arith)

matches_groups_of_IsHex :
    (k : ℕ) (s : Text) → IsHex s → length s ≡ k * 4 + 12 → matches_groups k (some s) ≡ true
unfolding matches_groups is_end
matches_groups_of_IsHex zero s h e =
    ap (λ t. is_end (hex_run 12 t)) (optional_dash_of_IsHex s h)
    ∙ ap is_end (hex_run-drop 12 s h (omega arith))
    ∙ ap (λ t. is_end (some t)) (length-zero (drop 12 s) (omega (arith, length-drop 12 s)))
matches_groups_of_IsHex (suc k) s h e =
    ap (λ t. matches_groups k (hex_run 4 t)) (optional_dash_of_IsHex s h)
    ∙ ap (matches_groups k) (hex_run-drop 4 s h (omega arith))
    ∙ matches_groups_of_IsHex k (drop 4 s) (drop-IsHex 4 s h) (omega (arith, length-drop 4 s))

pub IsCleanId-matches : (s : Text) → IsCleanId s → matches_id s ≡ true
unfolding matches_id
IsCleanId-matches s (h, e) =
    rw (hex_run-drop 8 s h (omega arith))
      (matches_groups_of_IsHex 3 (drop 8 s) (drop-IsHex 8 s h) (omega (arith, length-drop 8 s)))

-- Without its dashes a text has `n` digits more than another without its own.
record Leads (n : ℕ) (s r : Text) : Type 0 where
  digits : Text
  are_hex : IsHex digits
  number : length digits ≡ n
  cleaned : clean_uuid s ≡ digits ++ clean_uuid r

hex_run-Leads : (n : ℕ) (s r : Text) → hex_run n s ≡ some r → Leads n s r
unfolding hex_run clean_uuid remove_all
hex_run-Leads zero s r h = record {
  digits = [];
  are_hex = tt;
  number = refl;
  cleaned = ground arith;
}
hex_run-Leads (suc n) [] r h = absurd (ground arith)
hex_run-Leads (suc n) (c ∷ s) r h = elim (Bool-cases (is_hex c)) [
  | inl hit ↦
      let l = hex_run-Leads n s r (ground arith) in
      record {
        digits = c ∷ l.digits;
        are_hex = (hit, l.are_hex);
        number = omega (arith, l.number);
        cleaned = ground (arith, l.cleaned);
      }
  | inr miss ↦ absurd (ground arith)
]

clean_uuid-optional_dash : (s : Text) → clean_uuid (optional_dash s) ≡ clean_uuid s
unfolding clean_uuid remove_all optional_dash
clean_uuid-optional_dash [] = refl
clean_uuid-optional_dash (c ∷ s) = elim (Bool-cases (nat_eqb c b'-')) [
  | inl dash ↦ rw dash refl
  | inr other ↦ ground arith
]

Leads-IsCleanId :
    (n m : ℕ) (s r : Text)
    → Leads n s r
    → IsHex (clean_uuid r) × (length (clean_uuid r) ≡ m)
    → IsHex (clean_uuid s) × (length (clean_uuid s) ≡ n + m)
Leads-IsCleanId n m s r l (h, e) = rw l.cleaned (
  IsHex-append l.digits (clean_uuid r) l.are_hex h,
  omega (arith, length-append l.digits (clean_uuid r), l.number),
)

is_end_of_true : (o : Option Text) → is_end o ≡ true → o ≡ some []
unfolding is_end
is_end_of_true none h = cc h
is_end_of_true (some []) h = refl
is_end_of_true (some (c ∷ s)) h = cc h

matches_groups-some :
    (k : ℕ) (o : Option Text)
    → matches_groups k o ≡ true
    → (s : Text) × (o ≡ some s) × (matches_groups k (some s) ≡ true)
unfolding matches_groups
matches_groups-some zero none h = cc h
matches_groups-some (suc k) none h = cc h
matches_groups-some k (some s) h = (s, refl, h)

matches_groups_clean :
    (k : ℕ) (s : Text)
    → matches_groups k (some s) ≡ true
    → IsHex (clean_uuid s) × (length (clean_uuid s) ≡ k * 4 + 12)
unfolding matches_groups clean_uuid
matches_groups_clean zero s h =
    let e = is_end_of_true (hex_run 12 (optional_dash s)) h in
    rw (← clean_uuid-optional_dash s) (
      Leads-IsCleanId 12 0 (optional_dash s) [] (hex_run-Leads 12 (optional_dash s) [] e)
        (tt, refl))
matches_groups_clean (suc k) s h =
    let (r, e, g) = matches_groups-some k (hex_run 4 (optional_dash s)) h in
    let (hex, number) =
      Leads-IsCleanId 4 (k * 4 + 12) (optional_dash s) r (hex_run-Leads 4 (optional_dash s) r e)
        (matches_groups_clean k r g) in
    rw (← clean_uuid-optional_dash s) (hex, omega (arith, number))

-- A text that idPattern matches has 32 hexadecimal digits but for its dashes; without them it is
-- matched too, and cleaning it again changes nothing.
pub matches_id_clean :
    (s : Text)
    → matches_id s ≡ true
    → IsCleanId (clean_uuid s)
      × (matches_id (clean_uuid s) ≡ true)
      × (clean_uuid (clean_uuid s) ≡ clean_uuid s)
unfolding matches_id
matches_id_clean s h =
    let (r, e, g) = matches_groups-some 3 (hex_run 8 s) h in
    let clean = Leads-IsCleanId 8 24 s r (hex_run-Leads 8 s r e) (matches_groups_clean 3 r g) in
    (clean, IsCleanId-matches (clean_uuid s) clean, clean_of_IsHex (clean_uuid s) clean.0)
