-- ===== src/Tunnel/HopPool/Picking.antt =====
-- The order in which the selectors have endpoints tried.
use accel_proxy.Common.{
  All, Bool, InOrder, List, Option, [], ap, ap₂, arith, drop, drop-cons, drop_all, drop_none, false,
  filter, filter-sort, get_or, if_both, if_false, if_true, inl, inr, length, lt→ltb, nat-lt-or-ge,
  nat_beq, nat_beq_iff, none, refl, some, sort-InOrder, suc, sym, take, take_none, true, zero, ℕ,
  ◌%◌, ◌++◌, ◌+◌, ◌-◌, ◌<◌, ◌^◌, ◌∙◌, ◌∷◌, ◌≡◌, ◌≤◌,
}
use accel_proxy.Tunnel.HopPool.{
  Float, Store, alive_only, candidates, faster, latency_pick, rotation, round_robin_pick,
  start_index,
}

mod-lt : (x n : ℕ) → 0 < n → x % n < n
mod-lt x n h = grind arith

gt-nat_beq : (n : ℕ) → 0 < n → nat_beq n 0 ≡ false
gt-nat_beq n h = ground arith

mod_below : (x n : ℕ) → x < n → x % n ≡ x
mod_below x n h = grind arith

mod_wrapped : (x n : ℕ) → n ≤ x → x < n + n → x % n ≡ x - n
mod_wrapped x n h k = grind arith

module _ {F : Type 0} (fl : Float F) where
  -- The rotation, in two runs: up to the end of the list, and from its beginning.
  rotation_wrapped :
      (alive : List ℕ) (start i k : ℕ)
      → start < length alive
      → length alive ≤ start + i
      → start + i + k ≤ length alive + start
      → rotation fl alive start i k ≡ take k (drop (start + i - length alive) alive)
  unfolding rotation
  rotation_wrapped alive start i zero h p q = refl
  rotation_wrapped alive start i (suc k) h p q =
      ap₂ ◌∷◌ (ap (λ x. get_or alive x 0) (mod_wrapped (start + i) (length alive) p (omega arith)))
        (rotation_wrapped alive start (i + 1) k h (omega arith) (omega arith)
          ∙ ap (λ x. take k (drop x alive)) {y = suc (start + i - length alive)} (omega arith))
      ∙ sym (ap (take (suc k)) (drop-cons (start + i - length alive) alive 0 (omega arith)))

  rotation_lem :
      (alive : List ℕ) (start i k : ℕ)
      → start < length alive
      → i + k ≡ length alive
      → start + i ≤ length alive
      → rotation fl alive start i k ≡ drop (start + i) alive ++ take start alive
  unfolding rotation
  rotation_lem alive start i zero h p q =
      sym
        (ap₂ ◌++◌ (drop_all (start + i) alive (omega arith)) (take_none start alive (omega arith)))
  rotation_lem alive start i (suc k) h p q = elim (nat-lt-or-ge (start + i) (length alive)) [
    | inl l ↦
        ap₂ ◌∷◌ (ap (λ x. get_or alive x 0) (mod_below (start + i) (length alive) l)) (
          rotation_lem alive start (i + 1) k h (omega arith) (omega arith)
          ∙ ap (λ x. drop x alive ++ take start alive) {y = suc (start + i)} (omega arith))
        ∙ sym (ap (λ x. x ++ take start alive) (drop-cons (start + i) alive 0 l))
    | inr g ↦
        rotation_wrapped alive start i (suc k) h g (omega arith)
        ∙ ap (take (suc k)) (drop_none (start + i - length alive) alive (omega arith))
        ∙ ap (λ x. take x alive) {x = suc k} {y = start} (omega arith)
        ∙ sym (ap (λ x. x ++ take start alive) (drop_all (start + i) alive g))
  ]

  -- The endpoints that a pick is made from: those that are alive, or all where none is.
  pub Eligible : Store F → List ℕ → List ℕ → Type 0
  Eligible store eps from =
      let alive = filter (λ i. (store i).alive) eps in
      (0 < length alive → from ≡ alive) × (length alive ≡ 0 → from ≡ eps)

  candidates-Eligible :
      (store : Store F) (eps : List ℕ) → Eligible store eps (candidates fl store eps)
  unfolding Eligible candidates alive_only
  candidates-Eligible store eps =
      let alive = filter (λ i. (store i).alive) eps in
      if_both (λ (l : List ℕ). (0 < length alive → l ≡ alive) × (length alive ≡ 0 → l ≡ eps))
        (nat_beq (length alive) 0) (λ t. ((λ h. absurd (ground (arith, t, h))), (λ h. refl)))
        (λ t. ((λ h. refl), (λ h. absurd (ground (arith, t, h)))))

  eligible_some :
      (store : Store F) (eps : List ℕ) → 0 < length eps → 0 < length (candidates fl store eps)
  unfolding candidates alive_only
  eligible_some store eps h =
      if_both (λ (l : List ℕ). 0 < length l)
        (nat_beq (length (filter (λ i. (store i).alive) eps)) 0) (λ t. h) (λ t. ground (arith, t))

  rotated :
      (counter : ℕ) (store : Store F) (eps : List ℕ)
      → 0 < length (candidates fl store eps)
      → counter < 2 ^ 63
      → let alive = candidates fl store eps in
        let start = counter % length alive in
        round_robin_pick fl counter store eps ≡ some (drop start alive ++ take start alive)
  unfolding round_robin_pick start_index
  rotated counter store eps h l =
      let alive = candidates fl store eps in
      let start = counter % length alive in
      ap
        (λ (o : Option ℕ). elim o as (λ x. Option (List ℕ)) [
          | none ↦ none
          | some s ↦ some (rotation fl alive s 0 (length alive))
        ])
        (if_false _ (gt-nat_beq (length alive) h) ∙ if_true _ (lt→ltb counter (2 ^ 63) l))
      ∙ ap some (
          rotation_lem alive start 0 (length alive) (mod-lt counter (length alive) h) (omega arith)
            (omega (arith, mod-lt counter (length alive) h))
          ∙ ap (λ x. drop x alive ++ take start alive) {y = start} (omega arith))

  -- As long as there is an endpoint, and fewer than 2^63 picks have been made: a pick of the
  -- `RoundRobinSelector` is the list of the endpoints that are alive, or of all if none is, rotated to
  -- start at the counter modulo its length.
  pub round_robin_pick_lem :
      (counter : ℕ) (store : Store F) (eps : List ℕ)
      → 0 < length eps
      → counter < 2 ^ 63
      → (from : List ℕ) × Eligible store eps from
        × (round_robin_pick fl counter store eps
            ≡ some (drop (counter % length from) from ++ take (counter % length from) from))
  round_robin_pick_lem counter store eps h l = (
    candidates fl store eps,
    candidates-Eligible store eps,
    rotated counter store eps (eligible_some store eps h) l,
  )

  -- No later endpoint has a lower latency.
  pub Ascending : Store F → List ℕ → Type 0
  Ascending store [] = Unit
  Ascending store (i ∷ is) =
      All (λ j. fl.less (store j).latency_ewma (store i).latency_ewma ≡ false) is
      × Ascending store is

  InOrder-Ascending :
      (store : Store F) (is : List ℕ) → InOrder (faster fl store) is → Ascending store is
  unfolding Ascending InOrder faster
  InOrder-Ascending store [] h = tt
  InOrder-Ascending store (i ∷ is) h = (h.0, InOrder-Ascending store is h.1)

  -- Where the comparison of latencies is a strict weak order, as that of `float64` is without
  -- NaN: in a pick of the `LatencySelector` no later endpoint has a lower latency, and the pick is
  -- the endpoints that are alive, or all if none is, each as often as there.
  pub latency_pick_lem :
      (store : Store F) (eps : List ℕ)
      → ((a b : F) → fl.less a b ≡ true → fl.less b a ≡ false)
      → ((a b c : F) → fl.less a b ≡ false → fl.less b c ≡ false → fl.less a c ≡ false)
      → Ascending store (latency_pick fl store eps)
        × ((from : List ℕ) × Eligible store eps from
            × ((i : ℕ) → filter (nat_beq i) (latency_pick fl store eps) ≡ filter (nat_beq i) from))
  unfolding latency_pick faster
  latency_pick_lem store eps asymm negtrans = (
    InOrder-Ascending store _ (
        sort-InOrder (faster fl store) (λ i j. asymm (store i).latency_ewma (store j).latency_ewma)
          (λ i j k. negtrans (store i).latency_ewma (store j).latency_ewma (store k).latency_ewma)
          (candidates fl store eps)),
    (
      candidates fl store eps,
      candidates-Eligible store eps,
      (λ i. filter-sort (faster fl store) (nat_beq i) (tied i) (candidates fl store eps)),
    ),
  )
    where
      irrefl : (a : F) (b : Bool) → fl.less a a ≡ b → fl.less a a ≡ false
      irrefl a true e = asymm a a e
      irrefl a false e = e

      tied : (i j k : ℕ) → nat_beq i j ≡ true → nat_beq i k ≡ true → faster fl store j k ≡ false
      tied i j k p q =
          ap (λ x. fl.less (store j).latency_ewma (store x).latency_ewma)
            (sym ((nat_beq_iff i k).0 q) ∙ (nat_beq_iff i j).0 p)
          ∙ irrefl (store j).latency_ewma (fl.less (store j).latency_ewma (store j).latency_ewma)
              refl
