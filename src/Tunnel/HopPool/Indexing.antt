-- ===== src/Tunnel/HopPool/Indexing.antt =====
-- Which endpoint `UpdateEndpoints` finds for an address.
use accel_proxy.Tunnel.HopPool.{Float, Store, index_by_identity, place, place_all, place_at}
use accel_proxy.Common.{
  All, All-map, List, Option, String, [], ap, beq_cases, bool_eq, inl, inr, map, nat_eq, none,
  pair_eq, refl, some, string_eq, sym, ℕ, ◌∙◌, ◌∷◌, ◌≡◌, ◌≢◌,
}
use accel_proxy.Common.Dict.{Dict, insert, lookup, lookup-insert_ne, lookup-insert_self}
use accel_proxy.Config.{HopAddr, identity}

unfoldable pub DistinctIds : List HopAddr → Type 0
DistinctIds [] = Unit
DistinctIds (a ∷ more) = All (λ b. identity a ≢ identity b) more × DistinctIds more

some-eq : {a b : ℕ} → some a ≡ some b → b ≡ a
some-eq e = cc

module _ {F : Type 0} where
  -- The endpoint for each address is the one of its identity, if the pool has one.
  pub Reuses : Store F → List ℕ → List HopAddr → List ℕ → Type 0
  Reuses store old (a ∷ more) (j ∷ js) =
      All (λ i. identity (store i).addr ≡ identity a → j ≡ i) old × Reuses store old more js
  Reuses store old [] js = Unit
  Reuses store old (a ∷ more) [] = Unit

module _ {F : Type 0} (fl : Float F) where
  -- An identity that none of the endpoints has stays where it is in the index.
  index_keeps :
      (store : Store F) (k : String) (is : List ℕ) (m : Dict String ℕ)
      → All (λ b. k ≢ identity b) (map (λ i. (store i).addr) is)
      → lookup k (index_by_identity fl store is m) ≡ lookup k m
  unfolding index_by_identity
  index_keeps store k [] m n = refl
  index_keeps store k (i ∷ is) m (n, more) = elim (beq_cases (identity (store i).addr) k) [
    | inl (t, p) ↦ absurd (n (sym p))
    | inr t ↦
        index_keeps store k is (insert (identity (store i).addr) i m) more
        ∙ lookup-insert_ne (identity (store i).addr) k i m t
  ]

  index_finds :
      (store : Store F) (is : List ℕ) (m : Dict String ℕ)
      → DistinctIds (map (λ i. (store i).addr) is)
      → All (λ i. lookup (identity (store i).addr) (index_by_identity fl store is m) ≡ some i) is
  unfolding index_by_identity DistinctIds
  index_finds store [] m d = tt
  index_finds store (i ∷ is) m (n, d) = (
    index_keeps store (identity (store i).addr) is (insert (identity (store i).addr) i m) n
        ∙ lookup-insert_self (identity (store i).addr) i m,
    index_finds store is (insert (identity (store i).addr) i m) d,
  )

  place_at_found :
      (store : Store F) (next i : ℕ) (a : HopAddr) (o : Option ℕ)
      → o ≡ some i
      → (place_at fl store next a o).2 ≡ i
  unfolding place_at
  place_at_found store next i a (some j) e = sym (some-eq e)
  place_at_found store next i a none e = cc

  reuses :
      (old : Store F) (is : List ℕ) (m : Dict String ℕ)
      → All (λ i. lookup (identity (old i).addr) m ≡ some i) is
      → (new_addrs : List HopAddr) (store : Store F) (next : ℕ)
      → Reuses old is new_addrs (place_all fl m store next new_addrs).2
  unfolding Reuses place_all place
  reuses old is m found [] store next = tt
  reuses old is m found (a ∷ more) store next =
      let (store1, next1, j) = place_at fl store next a (lookup (identity a) m) in
      (
        All-map (λ i. lookup (identity (old i).addr) m ≡ some i)
            (λ i. identity (old i).addr ≡ identity a → j ≡ i)
            (λ i l e.
              place_at_found store next i a (lookup (identity a) m)
                (ap (λ k. lookup k m) (sym e) ∙ l))
            is found,
        reuses old is m found more store1 next1,
      )

  pub place_all-Reuses :
      (store : Store F) (is : List ℕ) (new_addrs : List HopAddr) (next : ℕ)
      → DistinctIds (map (λ i. (store i).addr) is)
      → Reuses store is new_addrs
          (place_all fl (index_by_identity fl store is []) store next new_addrs).2
  place_all-Reuses store is new_addrs next d =
      reuses store is (index_by_identity fl store is []) (index_finds store is [] d) new_addrs store
        next
