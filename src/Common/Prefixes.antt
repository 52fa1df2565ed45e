-- ===== src/Common/Prefixes.antt =====
-- Prefixes of a list, and the chunks that one is made of.
use Prim.Native.Nat.{ℕ, zero, suc, ◌+◌, ◌-◌, ◌≤◌}
use mathlib.Core.Path.{◌≡◌, refl, ap, ap₂, sym, ◌∙◌}
use mathlib.Core.List.{List, [], ◌∷◌, ◌++◌, append_assoc}
use native.Mathlib.Omega.{arith}
use accel_proxy.Common.Lists.{drop, length, take}

module _ {ℓ} {A : Type ℓ} where
  pub take-length : (n : ℕ) (xs : List A) → take (length (take n xs)) xs ≡ take n xs
  take-length zero xs = refl
  take-length (suc n) [] = refl
  take-length (suc n) (x ∷ xs) = ap (λ t. x ∷ t) (take-length n xs)

  pub take_nil : (n : ℕ) → take {A = A} n [] ≡ []
  take_nil zero = refl
  take_nil (suc n) = refl

  -- A prefix, and a chunk after it.
  pub take-chunk :
      (m n : ℕ) (xs : List A)
      → take m xs ++ take n (drop m xs) ≡ take (m + length (take n (drop m xs))) xs
  take-chunk zero n xs = sym (ap (λ k. take k xs) (omega arith) ∙ take-length n xs)
  take-chunk (suc m) n [] = take_nil n ∙ sym (take_nil (suc m + length (take n (drop (suc m) []))))
  take-chunk (suc m) n (x ∷ xs) =
      let e : suc m + length (take n (drop m xs)) ≡ suc (m + length (take n (drop m xs))) =
        omega arith in
      ap (λ t. x ∷ t) (take-chunk m n xs) ∙ sym (ap (λ k. take k (x ∷ xs)) e)

  -- What a prefix begins with is a prefix.
  pub append-prefix : (xs ys zs : List A) (n : ℕ) → xs ++ ys ≡ take n zs → xs ≡ take (length xs) zs
  append-prefix [] ys zs n e = refl
  append-prefix (x ∷ xs) ys zs zero e = cc
  append-prefix (x ∷ xs) ys [] (suc n) e = cc
  append-prefix (x ∷ xs) ys (z ∷ zs) (suc n) e =
      ap₂ (λ h t. h ∷ t) (ap head e) (append-prefix xs ys zs n (ap tail e))
    where
      head : List A → A
      head [] = x
      head (y ∷ l) = y

      tail : List A → List A
      tail [] = []
      tail (y ∷ l) = l

  -- Where the middle of a list is cut in two does not matter.
  pub append-middle :
      (t w u w' u' p : List A) → w ++ u ≡ w' ++ u' → (t ++ w) ++ (u ++ p) ≡ (t ++ w') ++ (u' ++ p)
  append-middle t w u w' u' p e = join w u ∙ ap (λ m. t ++ (m ++ p)) e ∙ sym (join w' u')
    where
      join : (a b : List A) → (t ++ a) ++ (b ++ p) ≡ t ++ ((a ++ b) ++ p)
      join a b = append_assoc t a (b ++ p) ∙ ap (λ m. t ++ m) (sym (append_assoc a b p))

  -- A prefix, cut in two.
  pub take-split :
      (m k : ℕ) (xs : List A) → m ≤ k → take k xs ≡ take m xs ++ take (k - m) (drop m xs)
  take-split zero k xs h = ap (λ j. take j xs) (omega arith)
  take-split (suc m) zero xs h = absurd (omega arith)
  take-split (suc m) (suc k) [] h = sym (take_nil (suc k - suc m))
  take-split (suc m) (suc k) (x ∷ xs) h =
      let e : suc k - suc m ≡ k - m = omega arith in
      ap (λ t. x ∷ t) (take-split m k xs (omega arith))
      ∙ ap (λ j. x ∷ (take m xs ++ take j (drop m xs))) (sym e)
