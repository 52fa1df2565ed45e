-- ===== src/Common/Dict.antt =====
-- Go's maps, as association lists. The order of the entries is the order in which a `range`
-- over the map meets them, which Go leaves open: statements hold for every order.
use native.Mathlib.Omega.{arith}
use mathlib.Core.Path.{◌≡◌, refl, ap, subst, sym, ◌∙◌}
use mathlib.Core.Bool.{true, false}
use mathlib.Core.Logic.{inl, inr}
use mathlib.Core.Option.{Option, none, some}
use mathlib.Core.List.{List, [], ◌∷◌}
use accel_proxy.Common.Tests.{
  Bool-cases, Eq, beq_cases, beq_refl, bool_eq, if◌then◌else◌, nat_eq, pair_eq, string_eq, ◌==◌,
}

abbrev pub Dict {ℓ κ} : Type ℓ → Type κ → Type (ℓ ⊔ κ)
Dict K V = List (K × V)

module _ {ℓ κ} {K : Type ℓ} {V : Type κ} ⦃e : Eq K⦄ where
  -- v, ok := m[k]
  unfoldable pub lookup : K → Dict K V → Option V
  lookup k [] = none
  lookup k ((j, v) ∷ m) = if j == k then some v else lookup k m

  -- m[k] = v
  unfoldable pub insert : K → V → Dict K V → Dict K V
  insert key new [] = (key, new) ∷ []
  insert key new ((i, old) ∷ more) =
      let rest = insert key new more in if i == key then (key, new) ∷ more else (i, old) ∷ rest

  -- delete(m, k)
  unfoldable pub delete : K → Dict K V → Dict K V
  delete k [] = []
  delete k ((j, v) ∷ m) = let rest = delete k m in if j == k then rest else (j, v) ∷ rest

  pub lookup-insert_self : (k : K) (v : V) (m : Dict K V) → lookup k (insert k v m) ≡ some v
  unfolding lookup insert
  lookup-insert_self k v [] = rw (beq_refl k)
  lookup-insert_self k v ((j, w) ∷ m) = elim (beq_cases j k) [
    | inl (h, p) ↦ rw h (rw (beq_refl k))
    | inr h ↦ rw h (rw h (lookup-insert_self k v m))
  ]

  pub lookup-insert_ne :
      (k j : K) (v : V) (m : Dict K V) → (k == j) ≡ false → lookup j (insert k v m) ≡ lookup j m
  unfolding lookup insert
  lookup-insert_ne k j v [] n = rw n
  lookup-insert_ne k j v ((i, w) ∷ m) n = elim (beq_cases i k) [
    | inl (h, p) ↦ rw h (rw p (rw n))
    | inr h ↦ rw h (ap (λ r. if i == j then some w else r) (lookup-insert_ne k j v m n))
  ]

  pub lookup-delete_self : (k : K) (m : Dict K V) → lookup k (delete k m) ≡ none
  unfolding lookup delete
  lookup-delete_self k [] = refl
  lookup-delete_self k ((j, v) ∷ m) = elim (beq_cases j k) [
    | inl (h, p) ↦ rw h (lookup-delete_self k m)
    | inr h ↦ rw h (rw h (lookup-delete_self k m))
  ]

  pub lookup-delete_ne :
      (k j : K) (m : Dict K V) → (k == j) ≡ false → lookup j (delete k m) ≡ lookup j m
  unfolding lookup delete
  lookup-delete_ne k j [] n = refl
  lookup-delete_ne k j ((i, v) ∷ m) n = elim (beq_cases i k) [
    | inl (h, p) ↦ rw h (rw p (rw n (lookup-delete_ne k j m n)))
    | inr h ↦ rw h (ap (λ r. if i == j then some v else r) (lookup-delete_ne k j m n))
  ]

-- A property of every value of a map.
abbrev pub AllValues {ℓ κ μ} : {K : Type ℓ} {V : Type κ} → (V → Type μ) → Dict K V → Type μ
AllValues P [] = Unit
AllValues P ((k, v) ∷ m) = P v × AllValues P m

module _ {ℓ κ μ} {K : Type ℓ} {V : Type κ} (P : V → Type μ) ⦃e : Eq K⦄ where
  pub AllValues-lookup : (k : K) (m : Dict K V) (v : V) → AllValues P m → lookup k m ≡ some v → P v
  unfolding lookup
  AllValues-lookup k [] v h p = cc
  AllValues-lookup k ((j, w) ∷ m) v h p = elim (Bool-cases (j == k)) [
    | inl t ↦ (let q : w ≡ v = ground arith in subst P q h.0)
    | inr t ↦ AllValues-lookup k m v h.1 (ground arith)
  ]

  pub AllValues-insert :
      (k : K) (v : V) (m : Dict K V) → P v → AllValues P m → AllValues P (insert k v m)
  unfolding insert
  AllValues-insert k v [] p h = (p, tt)
  AllValues-insert k v ((j, w) ∷ m) p h = elim (Bool-cases (j == k)) [
    | inl t ↦ rw t (p, h.1)
    | inr t ↦ rw t (h.0, AllValues-insert k v m p h.1)
  ]

  pub AllValues-delete : (k : K) (m : Dict K V) → AllValues P m → AllValues P (delete k m)
  unfolding delete
  AllValues-delete k [] h = tt
  AllValues-delete k ((j, w) ∷ m) h = elim (Bool-cases (j == k)) [
    | inl t ↦ rw t (AllValues-delete k m h.1)
    | inr t ↦ rw t (h.0, AllValues-delete k m h.1)
  ]

-- A map has at most one entry for a key.
module _ {ℓ κ} {K : Type ℓ} {V : Type κ} ⦃e : Eq K⦄ where
  unfoldable pub Single : K → Dict K V → Type κ
  Single i [] = Unit
  Single i ((k, v) ∷ m) = ((k == i) ≡ true → lookup i m ≡ none) × Single i m

  pub insert-Single : (i k : K) (v : V) (m : Dict K V) → Single i m → Single i (insert k v m)
  unfolding Single insert lookup
  insert-Single i k v [] s = ((λ t. refl), tt)
  insert-Single i k v ((j, w) ∷ m) (h, s) = elim (beq_cases j k) [
    | inl (t, p) ↦ rw t ((λ u. h (ap (λ x. x == i) p ∙ u)), s)
    | inr n ↦
        rw n ((λ u. lookup-insert_ne k i v m (other j k i u n) ∙ h u), insert-Single i k v m s)
  ]
    where
      other : (j k i : K) → (j == i) ≡ true → (j == k) ≡ false → (k == i) ≡ false
      other j k i u n = elim (beq_cases k i) [
        | inl (t, p) ↦ (let q = (e.beq_iff j k).1 ((e.beq_iff j i).0 u ∙ sym p) in cc)
        | inr t ↦ t
      ]
