-- ===== src/Tunnel/HopPool.antt =====
-- internal/tunnel/hop_pool.go and dialer.go: the pool of next hops, the two selectors, reload, and
-- dialing with fallback. Endpoints are shared by pointer: a pool holds references into a store.
-- Floating point is a parameter, and so is what a dial and handshake answers.
pub mod Picking
pub mod Indexing
pub mod Reload
pub mod Dialing
use accel_proxy.Common.{
  Bool, List, Option, String, [], bool_eq, false, filter, get_or, if◌then◌else◌, is_some, length,
  ltb, map, nat_beq, nat_eq, none, pair_eq, some, sort, string_eq, suc, true, zero, ℕ, ◌%◌, ◌+◌,
  ◌-◌, ◌^◌, ◌∷◌,
}
use accel_proxy.Common.Int.{int_eq, ℤ}
use accel_proxy.Common.Dict.{Dict, insert, lookup}
use accel_proxy.Config.{HopAddr, equal, identity}

-- `float64`, as far as latencies use it.
pub record Float (F : Type 0) : Type 0 where
  pub less : F → F → Bool
  pub plus : F → F → F
  pub times : F → F → F
  pub of_millis : ℤ → F
  pub max_float : F
  -- `ewmaAlpha`, and 1 - `ewmaAlpha`
  pub alpha : F
  pub one_less_alpha : F

pub record HopEndpoint (F : Type 0) : Type 0 where
  pub addr : HopAddr
  pub alive : Bool
  pub latency_ewma : F
  pub latency_samples : ℕ

abbrev pub Store : Type 0 → Type 0
Store F = ℕ → HopEndpoint F

-- Storing through a reference.
pub assign : {F : Type 0} → Store F → ℕ → HopEndpoint F → Store F
assign store i e j = if nat_beq j i then e else store j

-- `next` is the first reference that is not in use, and `counter` the `uint64` of the
-- `RoundRobinSelector`.
pub record HopPool (F : Type 0) : Type 0 where
  pub store : Store F
  pub next : ℕ
  pub endpoints : List ℕ
  pub counter : ℕ

module _ {F : Type 0} (fl : Float F) where
  pub new_hop_endpoint : HopAddr → HopEndpoint F
  new_hop_endpoint a = record {
    addr = a;
    alive = true;
    latency_ewma = fl.max_float;
    latency_samples = 0;
  }

  pub record_latency : HopEndpoint F → ℤ → HopEndpoint F
  record_latency e ms = record e {
    latency_ewma =
        (if nat_beq e.latency_samples 0
          then fl.of_millis ms
          else fl.plus (fl.times fl.alpha (fl.of_millis ms))
              (fl.times fl.one_less_alpha e.latency_ewma));
    latency_samples = e.latency_samples + 1;
  }

  unfoldable pub alive_only : Store F → List ℕ → List ℕ
  alive_only store eps = filter (λ i. (store i).alive) eps

  -- The alive endpoints, or all of them if none is.
  unfoldable pub candidates : Store F → List ℕ → List ℕ
  unfolding alive_only
  candidates store eps =
      let alive = alive_only store eps in if nat_beq (length alive) 0 then eps else alive

  -- int(counter) % n, where it is not negative. A negative index panics, and so does n = 0.
  pub start_index : ℕ → ℕ → Option ℕ
  start_index counter n =
      if nat_beq n 0
      then none
      else if ltb counter (2 ^ 63)
      then some (counter % n)
      else if nat_beq ((2 ^ 64 - counter) % n) 0
      then some 0
      else none

  -- alive[(start+i)%n] for i from `i` on
  pub rotation : List ℕ → ℕ → ℕ → ℕ → List ℕ
  rotation alive start i zero = []
  rotation alive start i (suc k) =
      get_or alive ((start + i) % length alive) 0 ∷ rotation alive start (i + 1) k

  -- `RoundRobinSelector.Pick`: `none` is a panic.
  pub round_robin_pick : ℕ → Store F → List ℕ → Option (List ℕ)
  round_robin_pick counter store eps =
      let alive = candidates store eps in
      elim (start_index counter (length alive)) [
        | none ↦ none
        | some start ↦ some (rotation alive start 0 (length alive))
      ]

  abbrev pub next_counter : ℕ → ℕ
  next_counter counter = (counter + 1) % 2 ^ 64

  pub faster : Store F → ℕ → ℕ → Bool
  faster store i j = fl.less (store i).latency_ewma (store j).latency_ewma

  -- `LatencySelector.Pick`
  pub latency_pick : Store F → List ℕ → List ℕ
  latency_pick store eps = sort (faster store) (candidates store eps)

  pub report_result : Store F → ℕ → Bool → ℤ → Store F
  unfolding record_latency assign
  report_result store i success ms = assign store i (
      if success
      then record_latency (record (store i) { alive = true }) ms
      else record (store i) { alive = false })

  -- `Addrs`
  unfoldable pub addrs : HopPool F → List HopAddr
  addrs p = map (λ i. (p.store i).addr) p.endpoints

  -- The index of the endpoints in use, by identity.
  pub index_by_identity : Store F → List ℕ → Dict String ℕ → Dict String ℕ
  index_by_identity store [] existing = existing
  index_by_identity store (i ∷ is) existing =
      index_by_identity store is (insert (identity (store i).addr) i existing)

  -- One round of `UpdateEndpoints`, after the look-up: the store, the next reference, and the
  -- endpoint for `a`.
  pub place_at : Store F → ℕ → HopAddr → Option ℕ → Store F × ℕ × ℕ
  unfolding assign new_hop_endpoint
  place_at store next a (some i) = (
    if equal (store i).addr a then store else assign store i (record (store i) { addr = a }),
    next,
    i,
  )
  place_at store next a none = (assign store next (new_hop_endpoint a), next + 1, next)

  pub place : Dict String ℕ → Store F → ℕ → HopAddr → Store F × ℕ × ℕ
  unfolding place_at
  place existing store next a = place_at store next a (lookup (identity a) existing)

  pub place_all : Dict String ℕ → Store F → ℕ → List HopAddr → Store F × ℕ × List ℕ
  place_all existing store next [] = (store, next, [])
  place_all existing store next (a ∷ more) =
      let (store1, next1, i) = place existing store next a in
      let (store2, next2, is) = place_all existing store1 next1 more in (store2, next2, i ∷ is)

  pub update_endpoints : HopPool F → List HopAddr → HopPool F
  unfolding place_all place index_by_identity
  update_endpoints p new_addrs =
      let existing = index_by_identity p.store p.endpoints [] in
      let (store, next, is) = place_all existing p.store p.next new_addrs in
      record p { store = store; next = next; endpoints = is }

  -- The loop of `DialWithFallback` over the endpoints picked. `tries k a` is how the attempt number
  -- `k` of this call ends, at the address `a`: with a tunnel or not, after so many milliseconds.
  unfoldable pub dial_loop {ℓ} :
      {T : Type ℓ} → (ℕ → HopAddr → Option T × ℤ) → ℕ → Store F → List ℕ → Store F × Option T
  unfolding report_result
  dial_loop tries k store [] = (store, none)
  dial_loop tries k store (i ∷ is) =
      let (tunnel, ms) = tries k (store i).addr in
      let after = report_result store i (is_some tunnel) ms in
      let rest = dial_loop tries (k + 1) after is in
      if is_some tunnel then (after, tunnel) else rest
