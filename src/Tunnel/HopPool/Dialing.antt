-- ===== src/Tunnel/HopPool/Dialing.antt =====
-- `DialWithFallback`: which tunnel is returned, and what the pool learns.
use accel_proxy.Common.{
  All, All-map, Bool, List, Option, Option-cases, [], ap, ap₂, arith, false, if_both, if_false,
  if◌then◌else◌, inl, inr, is_some, map, none, refl, some, subst, sym, ℕ, ◌+◌, ◌∙◌, ◌∷◌, ◌≡◌, ◌≢◌,
}
use accel_proxy.Common.Int.{ℤ}
use accel_proxy.Config.{HopAddr}
use accel_proxy.Tunnel.HopPool.{Float, Store, assign, dial_loop, record_latency, report_result}

-- The first attempt that succeeds, in order.
pub first_tunnel {ℓ} : {T : Type ℓ} → (ℕ → HopAddr → Option T × ℤ) → ℕ → List HopAddr → Option T
first_tunnel tries k [] = none
first_tunnel tries k (a ∷ more) = elim (tries k a).0 [
  | some t ↦ some t
  | none ↦ first_tunnel tries (k + 1) more
]

map-cong {ℓ} :
    {A : Type ℓ} (f g : ℕ → A) (is : List ℕ) → ((j : ℕ) → f j ≡ g j) → map f is ≡ map g is
map-cong f g [] h = refl
map-cong f g (i ∷ is) h = ap₂ ◌∷◌ (h i) (map-cong f g is h)

module _ {F : Type 0} (fl : Float F) where
  report_result_addr :
      (store : Store F) (i j : ℕ) (ok : Bool) (ms : ℤ)
      → (report_result fl store i ok ms j).addr ≡ (store j).addr
  unfolding report_result record_latency assign
  report_result_addr store i j ok ms = ground arith

  report_result_self :
      (store : Store F) (i : ℕ) (ok : Bool) (ms : ℤ) → (report_result fl store i ok ms i).alive ≡ ok
  unfolding report_result record_latency assign
  report_result_self store i ok ms = ground arith

  report_result_ne :
      (store : Store F) (i j : ℕ) (ok : Bool) (ms : ℤ)
      → j ≢ i
      → report_result fl store i ok ms j ≡ store j
  unfolding report_result record_latency assign
  report_result_ne store i j ok ms n = ground arith

  -- With pairwise distinct endpoints
  unfoldable pub Apart : List ℕ → Type 0
  Apart [] = Unit
  Apart (i ∷ is) = All (λ j. j ≢ i) is × Apart is

  dial_loop_frame {ℓ} :
      {T : Type ℓ} (tries : ℕ → HopAddr → Option T × ℤ) (k : ℕ) (store : Store F) (is : List ℕ)
      (j : ℕ)
      → All (λ i. j ≢ i) is
      → (dial_loop fl tries k store is).0 j ≡ store j
  unfolding dial_loop
  dial_loop_frame tries k store [] j n = refl
  dial_loop_frame {T = T} tries k store (i ∷ is) j n =
      let (tunnel, ms) = tries k (store i).addr in
      let after = report_result fl store i (is_some tunnel) ms in
      let kept = report_result_ne store i j (is_some tunnel) ms n.0 in
      if_both (λ (r : Store F × Option T). r.0 j ≡ store j) (is_some tunnel) (λ t. kept)
        (λ t. dial_loop_frame tries (k + 1) after is j n.1 ∙ kept)

  -- A dial tries the endpoints that were picked in their order and returns the first tunnel it
  -- gets, and an error exactly when no endpoint gives one.
  pub dial_loop_lem {ℓ} :
      {T : Type ℓ} (tries : ℕ → HopAddr → Option T × ℤ) (k : ℕ) (store : Store F) (is : List ℕ)
      → (dial_loop fl tries k store is).1 ≡ first_tunnel tries k (map (λ i. (store i).addr) is)
  unfolding dial_loop first_tunnel
  dial_loop_lem tries k store [] = refl
  dial_loop_lem tries k store (i ∷ is) = elim (Option-cases (tries k (store i).addr).0) [
    | inl e ↦ rw e (
        dial_loop_lem tries (k + 1) (report_result fl store i false (tries k (store i).addr).1) is
        ∙ ap (first_tunnel tries (k + 1)) (
            map-cong (λ j. (report_result fl store i false (tries k (store i).addr).1 j).addr)
              (λ j. (store j).addr) is
              (λ j. report_result_addr store i j false (tries k (store i).addr).1)))
    | inr (t, e) ↦ rw e
  ]

  first_failed {ℓ} :
      {T : Type ℓ} (tunnel : Option T) (after : Store F) (rest : Store F × Option T)
      → (let out : Store F × Option T = if is_some tunnel then (after, tunnel) else rest in
          out.1 ≡ none)
      → (is_some tunnel ≡ false) × (rest.1 ≡ none)
  first_failed none after rest e = (refl, e)
  first_failed (some t) after rest e = cc

  -- When a dial ends in an error, every endpoint that was picked is marked dead; they are pairwise
  -- distinct.
  pub dial_loop-alive {ℓ} :
      {T : Type ℓ} (tries : ℕ → HopAddr → Option T × ℤ) (k : ℕ) (store : Store F) (is : List ℕ)
      → Apart is
      → (dial_loop fl tries k store is).1 ≡ none
      → All (λ i. ((dial_loop fl tries k store is).0 i).alive ≡ false) is
  unfolding dial_loop Apart
  dial_loop-alive tries k store [] d e = tt
  dial_loop-alive {T = T} tries k store (i ∷ is) d e =
      let (tunnel, ms) = tries k (store i).addr in
      let after = report_result fl store i (is_some tunnel) ms in
      let rest = dial_loop fl tries (k + 1) after is in
      let (f, g) = first_failed tunnel after rest e in
      subst (λ (r : Store F × Option T). All (λ j. (r.0 j).alive ≡ false) (i ∷ is))
        (sym (if_false (after, tunnel) f))
        (
          ap (λ x. x.alive)
                (dial_loop_frame tries (k + 1) after is i (All-map _ _ (λ j n p. n (sym p)) is d.0))
              ∙ report_result_self store i (is_some tunnel) ms
              ∙ f,
          dial_loop-alive tries (k + 1) after is d.1 g,
        )
