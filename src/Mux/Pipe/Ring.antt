-- ===== src/Mux/Pipe/Ring.antt =====
-- Bytes in a ring.
use accel_proxy.Mux.Pipe.{copy_at}
use native.Mathlib.Nat.{add-zero, add-suc, mod-add-mod, add_assoc, mod-eq_of_lt}
use accel_proxy.Common.{
  [], ap, append-nil, append_assoc, ap₂, arith, drop, get_or, get_or-drop, get_or-set_ne,
  get_or-set_self, length, length-append, length-drop, length-set, refl, set, suc, sym, take,
  take-suc, zero, ℕ, ◌%◌, ◌++◌, ◌+◌, ◌-◌, ◌<◌, ◌∙◌, ◌∷◌, ◌≡◌, ◌≢◌, ◌≤◌,
}
use accel_proxy.Wire.{Bytes}

-- The `n` bytes from index `h` on, going round at `cap`.
pub window : Bytes → ℕ → ℕ → ℕ → Bytes
window b cap h zero = []
window b cap h (suc n) = window b cap h n ++ (get_or b ((h + n) % cap) 0 ∷ [])

pub length-window : (b : Bytes) (cap h n : ℕ) → length (window b cap h n) ≡ n
unfolding window
length-window b cap h zero = refl
length-window b cap h (suc n) = omega (
  arith,
  length-append (window b cap h n) (get_or b ((h + n) % cap) 0 ∷ []),
  length-window b cap h n,
)

-- Two windows in a row.
pub window-add :
    (b : Bytes) (cap h m n : ℕ)
    → window b cap h (m + n) ≡ window b cap h m ++ window b cap ((h + m) % cap) n
unfolding window
window-add b cap h m zero = rw add-zero (sym (append-nil (window b cap h m)))
window-add b cap h m (suc n) =
    rw (add-suc, mod-add-mod (h + m) cap n, window-add b cap h m n)
      (rw (append_assoc (window b cap h m)) (rw (add_assoc h m n)))

index_ne : (cap h k m : ℕ) → k < m → m < cap → (h + m) % cap ≢ (h + k) % cap
index_ne cap h k m p q = grind arith

window-set :
    (b : Bytes) (cap h n m x : ℕ)
    → n ≤ m
    → m < cap
    → window (set b ((h + m) % cap) x) cap h n ≡ window b cap h n
unfolding window
window-set b cap h zero m x p q = refl
window-set b cap h (suc n) m x p q =
    ap₂ ◌++◌ (window-set b cap h n m x (omega arith) q)
      (ap (λ t. t ∷ []) (get_or-set_ne b x 0 (index_ne cap h n m p q)))

-- The bytes of `xs` written one by one from index `i` on, going round.
pub put : Bytes → ℕ → ℕ → Bytes → Bytes
put b cap i [] = b
put b cap i (x ∷ xs) = put (set b i x) cap ((i + 1) % cap) xs

pub length-put : (b : Bytes) (cap i : ℕ) (xs : Bytes) → length (put b cap i xs) ≡ length b
unfolding put
length-put b cap i [] = refl
length-put b cap i (x ∷ xs) = length-put (set b i x) cap ((i + 1) % cap) xs ∙ length-set b i x

-- Bytes put behind a window extend it.
pub window-put :
    (b : Bytes) (cap h n : ℕ) (xs : Bytes)
    → length b ≡ cap
    → n + length xs ≤ cap
    → window (put b cap ((h + n) % cap) xs) cap h (n + length xs) ≡ window b cap h n ++ xs
unfolding put
window-put b cap h n [] e r = rw add-zero (sym (append-nil (window b cap h n)))
window-put b cap h n (x ∷ xs) e r =
    let next : ((h + n) % cap + 1) % cap ≡ (h + suc n) % cap =
      rw (mod-add-mod (h + n) cap 1) (ap (λ k. k % cap) (omega arith)) in
    let b' = set b ((h + n) % cap) x in
    let more = window-put b' cap h (suc n) xs (length-set b _ x ∙ e) (omega arith) in
    let count : n + suc (length xs) ≡ suc n + length xs = omega arith in
    rw (next, count, more)
      (unfold window in
        rw (window-set b cap h n n x (omega arith) (omega arith)) (
          rw (get_or-set_self b ((h + n) % cap) x 0 (omega arith))
            (append_assoc (window b cap h n) (x ∷ []) xs)))

-- A copy that does not reach past the end of the ring.
pub copy_at-eq-put :
    (b : Bytes) (cap i : ℕ) (xs : Bytes) → i + length xs ≤ cap → copy_at b i xs ≡ put b cap i xs
unfolding put copy_at
copy_at-eq-put b cap i [] r = refl
copy_at-eq-put b cap i (x ∷ []) r = refl
copy_at-eq-put b cap i (x ∷ y ∷ xs) r =
    let e : (i + 1) % cap ≡ i + 1 = mod-eq_of_lt (omega arith) in
    rw e (copy_at-eq-put (set b i x) cap (i + 1) (y ∷ xs) (omega arith))

-- A copy up to the end of the ring, and another from its start on.
pub copy_at_twice :
    (b : Bytes) (cap i : ℕ) (xs ys : Bytes)
    → i < cap
    → i + length xs ≡ cap
    → length ys ≤ cap
    → copy_at (copy_at b i xs) 0 ys ≡ put b cap i (xs ++ ys)
unfolding put copy_at
copy_at_twice b cap i [] ys l e r = absurd (omega arith)
copy_at_twice b cap i (x ∷ []) ys l e r =
    let w : (i + 1) % cap ≡ 0 = grind arith in
    rw (w, put) (copy_at-eq-put (set b i x) cap 0 ys (omega arith))
copy_at_twice b cap i (x ∷ y ∷ xs) ys l e r =
    let w : (i + 1) % cap ≡ i + 1 = mod-eq_of_lt (omega arith) in
    rw (w, put) (copy_at_twice (set b i x) cap (i + 1) (y ∷ xs) ys (omega arith) (omega arith) r)

-- A window that does not go round is a slice.
pub window_slice :
    (b : Bytes) (cap h n : ℕ) → length b ≡ cap → h + n ≤ cap → window b cap h n ≡ take n (drop h b)
unfolding window
window_slice b cap h zero e r = refl
window_slice b cap h (suc n) e r =
    let w : (h + n) % cap ≡ h + n = mod-eq_of_lt (omega arith) in
    rw (take-suc n (drop h b) 0 (omega (arith, length-drop h b)))
      (ap₂ ◌++◌ (window_slice b cap h n e (omega arith)) (rw (get_or-drop h n b 0, w)))

-- A window that goes round is two slices.
pub window_slices :
    (b : Bytes) (cap h n : ℕ)
    → length b ≡ cap
    → h < cap
    → cap ≤ h + n
    → n ≤ cap
    → window b cap h n ≡ take (cap - h) (drop h b) ++ take (n - (cap - h)) b
window_slices b cap h n e l w r =
    let m : n ≡ (cap - h) + (n - (cap - h)) = omega arith in
    let z : (h + (cap - h)) % cap ≡ 0 = grind arith in
    ap (window b cap h) m
    ∙ window-add b cap h (cap - h) (n - (cap - h))
    ∙ ap₂ ◌++◌ (window_slice b cap h (cap - h) e (omega arith))
        (rw z (window_slice b cap 0 (n - (cap - h)) e (omega arith)))
