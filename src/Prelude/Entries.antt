-- ===== src/Prelude/Entries.antt =====
-- The entries of Go's maps: what holds of all of them, and one entry in the middle.
use flynn_controller.Prelude.{
  ◌≡◌, ◌≢◌, refl, sym, ap, ◌∙◌, none, [], ◌∷◌, ◌++◌, Text, text_eq, ◌==◌, eq_cases, beq_refl,
  beq_ne, arith, inl, inr, Bool-cases, All, Comparable,
}
use flynn_controller.Prelude.Map
use flynn_controller.Prelude.Map.{Map, IsUnique, delete_absent}

module _ {K V : Type 0} ⦃e : Comparable K⦄ (P : K × V → Type 0) where
  pub All-put : (k : K) (v : V) (m : Map K V) → P (k, v) → All P m → All P (Map.put k v m)
  unfolding Map.put
  All-put k v [] p h = (p, tt)
  All-put k v ((j, w) ∷ m) p h = elim (Bool-cases (j == k)) [
    | inl same ↦ rw same (p, h.1)
    | inr other ↦ rw other (h.0, All-put k v m p h.1)
  ]

  pub All-delete : (k : K) (m : Map K V) → All P m → All P (Map.delete k m)
  unfolding Map.delete
  All-delete k [] h = tt
  All-delete k ((j, w) ∷ m) h = elim (Bool-cases (j == k)) [
    | inl same ↦ rw same (All-delete k m h.1)
    | inr other ↦ rw other (h.0, All-delete k m h.1)
  ]

pub get-split :
    {V : Type 0} (k : Text) (u : V) (front back : Map Text V)
    → Map.get k (front ++ (k, u) ∷ back) ≢ none
unfolding Map.get
get-split k u [] back h = ground (arith, beq_refl k)
get-split k u ((j, w) ∷ front) back h = ground (arith, get-split k u front back)

-- One entry of a list without duplicate keys is changed, or left out.
pub split-put :
    {V : Type 0} (k : Text) (u v : V) (front back : Map Text V)
    → IsUnique (front ++ (k, u) ∷ back)
    → front ++ (k, v) ∷ back ≡ Map.put k v (front ++ (k, u) ∷ back)
unfolding Map.put
split-put k u v [] back h = rw beq_refl refl
split-put k u v ((j, w) ∷ front) back h = elim (eq_cases j k) [
  | inl same ↦
      absurd
        (get-split k u front back (ap (λ i. Map.get i (front ++ (k, u) ∷ back)) (sym same) ∙ h.0))
  | inr other ↦ rw (beq_ne j k other) (ap (λ m. (j, w) ∷ m) (split-put k u v front back h.1))
]

pub split-delete :
    {V : Type 0} (k : Text) (u : V) (front back : Map Text V)
    → IsUnique (front ++ (k, u) ∷ back)
    → front ++ back ≡ Map.delete k (front ++ (k, u) ∷ back)
unfolding Map.delete
split-delete k u [] back h = rw beq_refl (sym (delete_absent k back h.0))
split-delete k u ((j, w) ∷ front) back h = elim (eq_cases j k) [
  | inl same ↦
      absurd
        (get-split k u front back (ap (λ i. Map.get i (front ++ (k, u) ∷ back)) (sym same) ∙ h.0))
  | inr other ↦ rw (beq_ne j k other) (ap (λ m. (j, w) ∷ m) (split-delete k u front back h.1))
]
