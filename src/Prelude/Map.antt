-- ===== src/Prelude/Map.antt =====
-- Go's maps as association lists. A list stands for the map in one order of iteration; the laws
-- and the theorems that use them hold for every list, so for every order.
use Prim.Native.Nat.{suc}
use mathlib.Core.Path.{◌≡◌, refl, ap}
use mathlib.Core.Logic.{◌≢◌, inl, inr}
use mathlib.Core.Bool.{Bool, true, false}
use mathlib.Core.Option.{Option, none, some}
use mathlib.Core.List.{List, [], ◌∷◌}
use native.Mathlib.Omega.{arith}
use flynn_controller.Prelude.Tests.{if◌then◌else◌, Bool-cases}
use flynn_controller.Prelude.Lists.{length, IsIn}
use flynn_controller.Prelude.Equality.{Comparable, ◌==◌, beq_refl, beq_ne, eq_iff}

abbrev pub Map {ℓ κ} : Type ℓ → Type κ → Type (ℓ ⊔ κ)
Map K V = List (K × V)

module _ {ℓ κ} {K : Type ℓ} {V : Type κ} where
  -- for k := range m
  unfoldable pub keys : Map K V → List K
  keys [] = []
  keys ((k, v) ∷ m) = k ∷ keys m

  pub length-keys : (m : Map K V) → length (keys m) ≡ length m
  unfolding keys
  length-keys [] = refl
  length-keys ((k, v) ∷ m) = ap suc (length-keys m)

module _ {ℓ κ} {K : Type ℓ} {V : Type κ} ⦃e : Comparable K⦄ where
  -- v, ok := m[k]
  unfoldable pub get : K → Map K V → Option V
  get k [] = none
  get k ((j, v) ∷ m) = if j == k then some v else get k m

  -- m[k] = v
  unfoldable pub put : K → V → Map K V → Map K V
  put k v [] = (k, v) ∷ []
  put k v ((j, w) ∷ m) = if j == k then (k, v) ∷ m else (j, w) ∷ put k v m

  -- delete(m, k)
  unfoldable pub delete : K → Map K V → Map K V
  delete k [] = []
  delete k ((j, v) ∷ m) = let rest = delete k m in if j == k then rest else (j, v) ∷ rest

  -- _, ok := m[k]
  unfoldable pub has : K → Map K V → Bool
  has k m = elim (get k m) [ none ↦ false | some v ↦ true ]

  pub get-empty : (k : K) → get k [] ≡ none
  unfolding get
  get-empty k = refl

  pub get-put :
      (k j : K) (v : V) (m : Map K V) → get j (put k v m) ≡ (if k == j then some v else get j m)
  unfolding get put
  get-put k j v [] = refl
  get-put k j v ((i, w) ∷ m) = ground (arith, eq_iff k j, eq_iff i k, eq_iff i j, get-put k j v m)

  pub get-delete : (k j : K) (m : Map K V) → get j (delete k m) ≡ (if k == j then none else get j m)
  unfolding get delete
  get-delete k j [] = ground arith
  get-delete k j ((i, w) ∷ m) = ground (arith, eq_iff k j, eq_iff i k, eq_iff i j, get-delete k j m)

  pub get_head : (k : K) (v : V) (m : Map K V) → get k ((k, v) ∷ m) ≡ some v
  unfolding get
  get_head k v m = rw beq_refl

  pub get_tail : (k j : K) (v : V) (m : Map K V) → k ≢ j → get j ((k, v) ∷ m) ≡ get j m
  unfolding get
  get_tail k j v m h = rw (beq_ne k j h)

  pub get-put_self : (k : K) (v : V) (m : Map K V) → get k (put k v m) ≡ some v
  get-put_self k v m = ground (arith, get-put k k v m, beq_refl k)

  pub get-delete_self : (k : K) (m : Map K V) → get k (delete k m) ≡ none
  get-delete_self k m = ground (arith, get-delete k k m, beq_refl k)

  pub get-put_ne : (k j : K) (v : V) (m : Map K V) → k ≢ j → get j (put k v m) ≡ get j m
  get-put_ne k j v m h = ground (arith, get-put k j v m, eq_iff k j)

  pub get-delete_ne : (k j : K) (m : Map K V) → k ≢ j → get j (delete k m) ≡ get j m
  get-delete_ne k j m h = ground (arith, get-delete k j m, eq_iff k j)

  -- A key stands once, as in every Go map.
  abbrev pub IsUnique : Map K V → Type κ
  IsUnique [] = Unit
  IsUnique ((k, v) ∷ m) = (get k m ≡ none) × IsUnique m

  pub put-IsUnique : (k : K) (v : V) (m : Map K V) → IsUnique m → IsUnique (put k v m)
  unfolding put get
  put-IsUnique k v [] h = (refl, tt)
  put-IsUnique k v ((i, w) ∷ m) h = elim (Bool-cases (i == k)) [
    | inl same ↦ rw same (subst_key same h.0, h.1)
    | inr other ↦
        rw other (ground (arith, get-put k i v m, eq_iff k i, eq_iff i k), put-IsUnique k v m h.1)
  ]
    where
      subst_key : (i == k) ≡ true → get i m ≡ none → get k m ≡ none
      subst_key same h = ground (arith, eq_iff i k)

  pub delete-IsUnique : (k : K) (m : Map K V) → IsUnique m → IsUnique (delete k m)
  unfolding delete get
  delete-IsUnique k [] h = tt
  delete-IsUnique k ((i, w) ∷ m) h = elim (Bool-cases (i == k)) [
    | inl same ↦ rw same (delete-IsUnique k m h.1)
    | inr other ↦ rw other (ground (arith, get-delete k i m), delete-IsUnique k m h.1)
  ]

  pub delete_absent : (k : K) (m : Map K V) → get k m ≡ none → delete k m ≡ m
  unfolding delete get
  delete_absent k [] h = refl
  delete_absent k ((i, w) ∷ m) h = ground (arith, delete_absent k m)

  -- len(m) after a write to a new key, and after a delete of a present one
  pub length-put :
      (k : K) (v : V) (m : Map K V) → get k m ≡ none → length (put k v m) ≡ suc (length m)
  unfolding put get
  length-put k v [] h = refl
  length-put k v ((i, w) ∷ m) h = ground (arith, length-put k v m)

  pub length-delete :
      (k : K) (m : Map K V) (v : V)
      → IsUnique m
      → get k m ≡ some v
      → suc (length (delete k m)) ≡ length m
  unfolding delete get
  length-delete k [] v u h = cc
  length-delete k ((i, w) ∷ m) v u h = elim (Bool-cases (i == k)) [
    | inl same ↦ rw (same, delete_absent k m (ground (arith, eq_iff i k)))
    | inr other ↦ rw other (ap suc (length-delete k m v u.1 (ground arith)))
  ]

  pub delete_head : (k : K) (v : V) (m : Map K V) → get k m ≡ none → delete k ((k, v) ∷ m) ≡ m
  unfolding delete
  delete_head k v m h = rw beq_refl (delete_absent k m h)

  pub put-put : (k : K) (v w : V) (m : Map K V) → put k v (put k w m) ≡ put k v m
  unfolding put
  put-put k v w [] = rw beq_refl
  put-put k v w ((i, u) ∷ m) = ground (arith, put-put k v w m, beq_refl k)

  pub put-ne-nil : (k : K) (v : V) (m : Map K V) → put k v m ≢ []
  unfolding put
  put-ne-nil k v [] h = cc
  put-ne-nil k v ((i, u) ∷ m) h = ground arith

  pub has_of_some : (k : K) (m : Map K V) {v : V} → get k m ≡ some v → has k m ≡ true
  unfolding has
  has_of_some k m h = rw (h, has)

  pub has_of_none : (k : K) (m : Map K V) → get k m ≡ none → has k m ≡ false
  unfolding has
  has_of_none k m h = rw (h, has)

module _ {K V : Type 0} ⦃e : Comparable K⦄ where
  pub get-IsIn : (k : K) (v : V) (m : Map K V) → get k m ≡ some v → IsIn k (keys m)
  unfolding get keys
  get-IsIn k v [] h = cc
  get-IsIn k v ((i, w) ∷ m) h = elim (Bool-cases (i == k)) [
    | inl same ↦ inl (ground (arith, eq_iff i k))
    | inr other ↦ inr (get-IsIn k v m (ground arith))
  ]

  -- An entry of the list is what a read finds, and the other way round.
  pub get-entry : (k : K) (v : V) (m : Map K V) → get k m ≡ some v → IsIn (k, v) m
  unfolding get
  get-entry k v [] h = cc
  get-entry k v ((i, w) ∷ m) h = elim (Bool-cases (i == k)) [
    | inl same ↦ inl (ground (arith, eq_iff i k))
    | inr other ↦ inr (get-entry k v m (ground arith))
  ]

  pub entry-get : (k : K) (v : V) (m : Map K V) → IsUnique m → IsIn (k, v) m → get k m ≡ some v
  unfolding get
  entry-get k v [] u h = absurd h
  entry-get k v ((i, w) ∷ m) u (inl e) = ground (arith, beq_refl k)
  entry-get k v ((i, w) ∷ m) u (inr h) =
      let found = entry-get k v m u.1 h in ground (arith, eq_iff i k, found)
