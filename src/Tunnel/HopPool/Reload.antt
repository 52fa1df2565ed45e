-- ===== src/Tunnel/HopPool/Reload.antt =====
-- `UpdateEndpoints`: the pool has the new addresses, and endpoints that stay keep their history.
use accel_proxy.Common.{
  All, Bool, List, Option, String, [], ap, ap₂, arith, beq_cases, bool_eq, if_both, inl, inr, map,
  nat_eq, none, pair_eq, refl, some, string_eq, subst, sym, true, ℕ, ◌&&◌, ◌<◌, ◌==◌, ◌∙◌, ◌∷◌, ◌≡◌,
  ◌≢◌, ◌≤◌, ◌⊎◌,
}
use accel_proxy.Common.Int.{int_eq}
use accel_proxy.Common.Dict.{Dict, insert, lookup, lookup-insert_ne, lookup-insert_self}
use accel_proxy.Config.{HopAddr, equal, identity}
use accel_proxy.Tunnel.HopPool.Indexing.{DistinctIds, Reuses, place_all-Reuses}
use accel_proxy.Tunnel.HopPool.{
  Float, HopEndpoint, HopPool, Store, addrs, assign, index_by_identity, new_hop_endpoint, place,
  place_all, place_at, update_endpoints,
}

all_true :
    (t d p o s u : Bool)
    → (t && d && p && o && s && u) ≡ true
    → (t ≡ true) × (d ≡ true) × (p ≡ true) × (o ≡ true) × (s ≡ true) × (u ≡ true)
all_true t d p o s u h = ground arith

same :
    (a b : HopAddr)
    → a.type ≡ b.type
    → a.addr ≡ b.addr
    → a.port ≡ b.port
    → a.host ≡ b.host
    → a.tls ≡ b.tls
    → a.tunnel_path ≡ b.tunnel_path
    → a ≡ b
same a b t d p o s u = cc

equal_lem : (a b : HopAddr) → equal a b ≡ true → a ≡ b
unfolding equal
equal_lem a b h =
    let (t, d, p, o, s, u) =
      all_true (a.type == b.type) (a.addr == b.addr) (a.port == b.port) (a.host == b.host)
        (a.tls == b.tls) (a.tunnel_path == b.tunnel_path) h in
    same a b ((string_eq.beq_iff a.type b.type).0 t) ((string_eq.beq_iff a.addr b.addr).0 d)
      ((int_eq.beq_iff a.port b.port).0 p) ((string_eq.beq_iff a.host b.host).0 o)
      ((bool_eq.beq_iff a.tls b.tls).0 s) ((string_eq.beq_iff a.tunnel_path b.tunnel_path).0 u)

nat-eq-or-ne : (a b : ℕ) → (a ≡ b) ⊎ (a ≢ b)
nat-eq-or-ne a b = ground arith

some-inj : {a b : ℕ} → some a ≡ some b → a ≡ b
some-inj e = cc

module _ {F : Type 0} (fl : Float F) where
  assign_self : (store : Store F) (i : ℕ) (e : HopEndpoint F) → assign store i e i ≡ e
  unfolding assign
  assign_self store i e = ground arith

  assign_ne : (store : Store F) (i j : ℕ) (e : HopEndpoint F) → j ≢ i → assign store i e j ≡ store j
  unfolding assign
  assign_ne store i j e n = ground arith

  -- Entries are references in use, under the identity of their address.
  IsIndex : Dict String ℕ → Store F → ℕ → Type 0
  IsIndex m store next =
      (k : String) (i : ℕ) → lookup k m ≡ some i → (i < next) × (identity (store i).addr ≡ k)

  insert_lem :
      (store : Store F) (next i : ℕ) (m : Dict String ℕ)
      → i < next
      → IsIndex m store next
      → IsIndex (insert (identity (store i).addr) i m) store next
  unfolding IsIndex
  insert_lem store next i m b h k j e = elim (beq_cases (identity (store i).addr) k) [
    | inl (t, p) ↦
        (let q : i ≡ j = found p in
          (subst (λ x. x < next) q b, subst (λ x. identity (store x).addr ≡ k) q p))
    | inr t ↦ h k j (sym (lookup-insert_ne (identity (store i).addr) k i m t) ∙ e)
  ]
    where
      found : identity (store i).addr ≡ k → i ≡ j
      found p = some-inj (
          sym (lookup-insert_self (identity (store i).addr) i m)
          ∙ ap (λ x. lookup x (insert (identity (store i).addr) i m)) p
          ∙ e)

  index_lem :
      (store : Store F) (next : ℕ) (is : List ℕ) (m : Dict String ℕ)
      → All (λ i. i < next) is
      → IsIndex m store next
      → IsIndex (index_by_identity fl store is m) store next
  unfolding index_by_identity
  index_lem store next [] m b h = h
  index_lem store next (i ∷ is) m b h =
      index_lem store next is (insert (identity (store i).addr) i m) b.1
        (insert_lem store next i m b.0 h)

  assign_both :
      (Q : HopEndpoint F → Type 0) (store : Store F) (i j : ℕ) (e : HopEndpoint F)
      → (j ≡ i → Q e)
      → (j ≢ i → Q (store j))
      → Q (assign store i e j)
  assign_both Q store i j e f g = elim (nat-eq-or-ne j i) [
    | inl p ↦
        subst (λ k. Q (assign store i e k)) (sym p) (subst Q (sym (assign_self store i e)) (f p))
    | inr n ↦ subst Q (sym (assign_ne store i j e n)) (g n)
  ]

  -- The health and the latency history of an endpoint.
  pub SameHistory : HopEndpoint F → HopEndpoint F → Type 0
  SameHistory e d =
      (e.alive ≡ d.alive)
      × (e.latency_ewma ≡ d.latency_ewma)
      × (e.latency_samples ≡ d.latency_samples)

  -- What a round keeps, and what it does.
  IsRound : Dict String ℕ → Store F → ℕ → HopAddr → Store F × ℕ × ℕ → Type 0
  IsRound m store next a (store1, next1, i) =
      ((store1 i).addr ≡ a)
      × (i < next1)
      × (next ≤ next1)
      × IsIndex m store1 next1
      × ((j : ℕ) → j < next → SameHistory (store1 j) (store j))
      × ((j : ℕ) → j < next → identity (store j).addr ≢ identity a → store1 j ≡ store j)

  place_at_lem :
      (m : Dict String ℕ) (store : Store F) (next : ℕ) (a : HopAddr) (o : Option ℕ)
      → IsIndex m store next
      → lookup (identity a) m ≡ o
      → IsRound m store next a (place_at fl store next a o)
  unfolding place_at IsIndex new_hop_endpoint SameHistory IsRound
  place_at_lem m store next a (some i) h l =
      if_both (λ store1. IsRound m store next a (store1, next, i)) (equal (store i).addr a)
        (λ t. (
          equal_lem (store i).addr a t,
          (h (identity a) i l).0,
          omega arith,
          h,
          (λ j q. (refl, refl, refl)),
          (λ j q n. refl),
        ))
        (λ t. (
          ap (λ e. e.addr) (assign_self store i (record (store i) { addr = a })),
          (h (identity a) i l).0,
          omega arith,
          (λ k j e. (
            (h k j e).0,
            assign_both (λ d. identity d.addr ≡ k) store i j (record (store i) { addr = a })
                (λ p.
                  sym (h (identity a) i l).1
                  ∙ ap (λ x. identity (store x).addr) (sym p)
                  ∙ (h k j e).1)
                (λ n. (h k j e).1),
          )),
          (λ j q.
              assign_both (λ d. SameHistory d (store j)) store i j (record (store i) { addr = a })
                (λ p. (
                  ap (λ x. (store x).alive) (sym p),
                  ap (λ x. (store x).latency_ewma) (sym p),
                  ap (λ x. (store x).latency_samples) (sym p),
                ))
                (λ n. (refl, refl, refl))),
          (λ j q n.
              assign_ne store i j (record (store i) { addr = a })
                (λ p. n (ap (λ x. identity (store x).addr) p ∙ (h (identity a) i l).1))),
        ))
  place_at_lem m store next a none h l = (
    ap (λ e. e.addr) (assign_self store next (new_hop_endpoint fl a)),
    omega arith,
    omega arith,
    (λ k j e. (
      omega (arith, (h k j e).0),
      subst (λ d. identity d.addr ≡ k)
          (sym (assign_ne store next j (new_hop_endpoint fl a) (omega (arith, (h k j e).0))))
          (h k j e).1,
    )),
    (λ j q.
        subst (λ d. SameHistory d (store j))
          (sym (assign_ne store next j (new_hop_endpoint fl a) (omega arith))) (refl, refl, refl)),
    (λ j q n. assign_ne store next j (new_hop_endpoint fl a) (omega arith)),
  )

  -- The rounds keep an endpoint whose identity is none of theirs.
  place_all_frame :
      (m : Dict String ℕ) (more : List HopAddr) (store : Store F) (next j : ℕ)
      → IsIndex m store next
      → j < next
      → All (λ b. identity (store j).addr ≢ identity b) more
      → (place_all fl m store next more).0 j ≡ store j
  unfolding place_all place IsRound
  place_all_frame m [] store next j h q n = refl
  place_all_frame m (a ∷ more) store next j h q n =
      let (store1, next1, i) = place_at fl store next a (lookup (identity a) m) in
      let (at_a, in_use, grows, index, history, frame) =
        place_at_lem m store next a (lookup (identity a) m) h refl in
      place_all_frame m more store1 next1 j index (omega arith)
        (subst (λ d. All (λ b. identity d.addr ≢ identity b) more) (sym (frame j q n.0)) n.1)
      ∙ frame j q n.0

  history_trans : (d e f : HopEndpoint F) → SameHistory d e → SameHistory e f → SameHistory d f
  unfolding SameHistory
  history_trans d e f h k = (h.0 ∙ k.0, h.1 ∙ k.1, h.2 ∙ k.2)

  place_all_lem :
      (m : Dict String ℕ) (new_addrs : List HopAddr) (store : Store F) (next : ℕ)
      → IsIndex m store next
      → DistinctIds new_addrs
      → (map
            (λ i. ((place_all fl m store next new_addrs).0 i).addr)
            (place_all fl m store next new_addrs).2
          ≡ new_addrs)
        × ((j : ℕ) → j < next → SameHistory ((place_all fl m store next new_addrs).0 j) (store j))
  unfolding place_all place DistinctIds IsRound SameHistory
  place_all_lem m [] store next h d = (refl, λ j q. (refl, refl, refl))
  place_all_lem m (a ∷ more) store next h d =
      let (store1, next1, i) = place_at fl store next a (lookup (identity a) m) in
      let (at_a, in_use, grows, index, history, frame) =
        place_at_lem m store next a (lookup (identity a) m) h refl in
      let (all_at, histories) = place_all_lem m more store1 next1 index d.1 in
      (
        ap₂ ◌∷◌
            (ap (λ e. e.addr)
                (place_all_frame m more store1 next1 i index in_use
                  (subst (λ x. All (λ b. identity x ≢ identity b) more) (sym at_a) d.0))
              ∙ at_a)
            all_at,
        λ j q.
            history_trans ((place_all fl m store1 next1 more).0 j) (store1 j) (store j)
              (histories j (omega arith)) (history j q),
      )

  nothing_indexed : (store : Store F) (next : ℕ) → IsIndex [] store next
  unfolding IsIndex lookup
  nothing_indexed store next k i e = cc

  -- A reload with addresses of pairwise distinct identity, of a pool whose endpoints are in its
  -- store and of pairwise distinct identity, leaves the pool with exactly these addresses in their
  -- order; an address with the identity of an endpoint of the pool gets that endpoint; and no endpoint
  -- of the store loses its health or its latency history.
  pub update_endpoints_lem :
      (p : HopPool F) (new_addrs : List HopAddr)
      → All (λ i. i < p.next) p.endpoints
      → DistinctIds (addrs fl p)
      → DistinctIds new_addrs
      → (addrs fl (update_endpoints fl p new_addrs) ≡ new_addrs)
        × Reuses p.store p.endpoints new_addrs (update_endpoints fl p new_addrs).endpoints
        × ((j : ℕ)
            → j < p.next
            → SameHistory ((update_endpoints fl p new_addrs).store j) (p.store j))
  unfolding update_endpoints addrs
  update_endpoints_lem p new_addrs b e d =
      let (all_at, histories) =
        place_all_lem (index_by_identity fl p.store p.endpoints []) new_addrs p.store p.next
          (index_lem p.store p.next p.endpoints [] b (nothing_indexed p.store p.next)) d in
      (all_at, place_all-Reuses fl p.store p.endpoints new_addrs p.next e, histories)
