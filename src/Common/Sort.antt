-- ===== src/Common/Sort.antt =====
-- The insertion sort that the source writes out in place wherever it sorts: `before a b` is the
-- test that moves `a` in front of `b`.
use accel_proxy.Common.Lists.{All, All-map}
use mathlib.Core.Path.{◌≡◌, refl, ap, ◌∙◌, sym}
use native.Mathlib.Omega.{arith}
use mathlib.Core.Bool.{Bool, true, false}
use mathlib.Core.Logic.{inl, inr}
use mathlib.Core.List.{List, [], ◌∷◌, ◌++◌, append-nil, append_assoc}
use accel_proxy.Common.Tests.{Bool-cases, if◌then◌else◌}

module _ {ℓ} {A : Type ℓ} where
  abbrev pub filter : (A → Bool) → List A → List A
  filter q [] = []
  filter q (x ∷ xs) = let rest = filter q xs in if q x then x ∷ rest else rest

  pub filter-append :
      (q : A → Bool) (xs ys : List A) → filter q (xs ++ ys) ≡ filter q xs ++ filter q ys
  filter-append q [] ys = refl
  filter-append q (x ∷ xs) ys = elim (Bool-cases (q x)) [
    | inl h ↦ rw h (ap (λ t. x ∷ t) (filter-append q xs ys))
    | inr h ↦ rw h (filter-append q xs ys)
  ]

  unfoldable pub reverse : List A → List A
  reverse [] = []
  reverse (x ∷ xs) = reverse xs ++ (x ∷ [])

  pub filter-reverse : (q : A → Bool) (xs : List A) → filter q (reverse xs) ≡ reverse (filter q xs)
  unfolding reverse
  filter-reverse q [] = refl
  filter-reverse q (x ∷ xs) = filter-append q (reverse xs) (x ∷ []) ∙ elim (Bool-cases (q x)) [
    | inl h ↦ rw h (ap (λ t. t ++ (x ∷ [])) (filter-reverse q xs))
    | inr h ↦ rw h (append-nil (filter q (reverse xs)) ∙ filter-reverse q xs)
  ]

module _ {ℓ} {A : Type ℓ} (before : A → A → Bool) where
  -- The inner loop: `x` moves down the sorted part, which is held from its end.
  unfoldable pub sink : A → List A → List A
  sink x [] = x ∷ []
  sink x (y ∷ ys) = let rest = sink x ys in if before x y then y ∷ rest else x ∷ y ∷ ys

  unfoldable pub sort_onto : List A → List A → List A
  sort_onto sorted [] = reverse sorted
  sort_onto sorted (x ∷ xs) = sort_onto (sink x sorted) xs

  unfoldable pub sort : List A → List A
  sort xs = sort_onto [] xs

module _ {ℓ} {A : Type ℓ} (before : A → A → Bool) where
  -- Nothing comes after an element that belongs before it; `Settled` reads the list from its end.
  unfoldable pub InOrder : List A → Type 0
  InOrder [] = Unit
  InOrder (x ∷ xs) = All (λ y. before y x ≡ false) xs × InOrder xs

  Settled : List A → Type 0
  Settled [] = Unit
  Settled (y ∷ ys) = All (λ z. before y z ≡ false) ys × Settled ys

  All-sink : (P : A → Type 0) (x : A) (ys : List A) → P x → All P ys → All P (sink before x ys)
  unfolding sink
  All-sink P x [] p h = (p, tt)
  All-sink P x (y ∷ ys) p h = elim (Bool-cases (before x y)) [
    | inl t ↦ rw t (h.0, All-sink P x ys p h.1)
    | inr t ↦ rw t (p, h)
  ]

  All-snoc : (P : A → Type 0) (ys : List A) (x : A) → All P ys → P x → All P (ys ++ (x ∷ []))
  All-snoc P [] x h p = (p, tt)
  All-snoc P (y ∷ ys) x h p = (h.0, All-snoc P ys x h.1 p)

  InOrder-snoc :
      (ys : List A) (x : A)
      → InOrder ys
      → All (λ y. before x y ≡ false) ys
      → InOrder (ys ++ (x ∷ []))
  unfolding InOrder
  InOrder-snoc [] x h k = (tt, tt)
  InOrder-snoc (y ∷ ys) x h k =
      (All-snoc (λ z. before z y ≡ false) ys x h.0 k.0, InOrder-snoc ys x h.1 k.1)

  All-reverse : (P : A → Type 0) (ys : List A) → All P ys → All P (reverse ys)
  unfolding reverse
  All-reverse P [] h = tt
  All-reverse P (y ∷ ys) h = All-snoc P (reverse ys) y (All-reverse P ys h.1) h.0

  reverse-InOrder : (ys : List A) → Settled ys → InOrder (reverse ys)
  unfolding reverse Settled InOrder
  reverse-InOrder [] h = tt
  reverse-InOrder (y ∷ ys) h =
      InOrder-snoc (reverse ys) y (reverse-InOrder ys h.1)
        (All-reverse (λ z. before y z ≡ false) ys h.0)

  -- `before` is a strict order whose negation is transitive.
  module _ (asymm : (a b : A) → before a b ≡ true → before b a ≡ false)
      (negtrans : (a b c : A) → before a b ≡ false → before b c ≡ false → before a c ≡ false) where
    sink-Settled : (x : A) (ys : List A) → Settled ys → Settled (sink before x ys)
    unfolding sink Settled
    sink-Settled x [] h = (tt, tt)
    sink-Settled x (y ∷ ys) h = elim (Bool-cases (before x y)) [
      | inl t ↦
          rw t (All-sink (λ z. before y z ≡ false) x ys (asymm x y t) h.0, sink-Settled x ys h.1)
      | inr t ↦ rw t (
        (
          t,
          All-map (λ z. before y z ≡ false) (λ z. before x z ≡ false) (λ z p. negtrans x y z t p) ys
              h.0,
        ),
        h,
      )
    ]

    sort_onto-InOrder : (ys xs : List A) → Settled ys → InOrder (sort_onto before ys xs)
    unfolding sort_onto
    sort_onto-InOrder ys [] h = reverse-InOrder ys h
    sort_onto-InOrder ys (x ∷ xs) h = sort_onto-InOrder (sink before x ys) xs (sink-Settled x ys h)

    pub sort-InOrder : (xs : List A) → InOrder (sort before xs)
    unfolding sort Settled
    sort-InOrder xs = sort_onto-InOrder [] xs tt

  -- Sorting keeps the elements, and the order among those that the test does not tell apart.
  module _ (q : A → Bool) (tied : (a b : A) → q a ≡ true → q b ≡ true → before a b ≡ false) where
    filter-sink : (x : A) (ys : List A) → filter q (sink before x ys) ≡ filter q (x ∷ ys)
    unfolding sink
    filter-sink x [] = refl
    filter-sink x (y ∷ ys) = ground (arith, filter-sink x ys, tied x y)

    filter-sort_onto :
        (ys xs : List A) → filter q (sort_onto before ys xs) ≡ reverse (filter q ys) ++ filter q xs
    unfolding sort_onto reverse
    filter-sort_onto ys [] = filter-reverse q ys ∙ sym (append-nil (reverse (filter q ys)))
    filter-sort_onto ys (x ∷ xs) =
        filter-sort_onto (sink before x ys) xs
        ∙ ap (λ t. reverse t ++ filter q xs) (filter-sink x ys)
        ∙ elim (Bool-cases (q x)) [
          | inl h ↦ rw h (append_assoc (reverse (filter q ys)) (x ∷ []) (filter q xs))
          | inr h ↦ rw h
        ]

    pub filter-sort : (xs : List A) → filter q (sort before xs) ≡ filter q xs
    unfolding sort reverse
    filter-sort xs = filter-sort_onto [] xs
