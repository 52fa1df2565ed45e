-- ===== src/Config/Order.antt =====
-- `SortGroups`: hops in descending order of their group's priority, and stable.
use accel_proxy.Common.{
  All, Bool, InOrder, List, [], ap, arith, bool_eq, false, filter, filter-sort, nat_eq, pair_eq,
  refl, sort-InOrder, string_eq, sym, true, ◌++◌, ◌==◌, ◌∙◌, ◌∷◌, ◌≡◌,
}
use accel_proxy.Common.Int.{int_beq_iff, int_eq, ltz, ltz_asymm, ltz_trans, negsuc, pos, ℤ}
use accel_proxy.Config.{HopAddr, RouteGroup, all_hops, higher, sort_groups, sorted_groups}

higher_asymm : (a b : RouteGroup) → higher a b ≡ true → higher b a ≡ false
unfolding higher
higher_asymm a b h = ltz_asymm b.priority a.priority h

higher_trans : (a b c : RouteGroup) → higher a b ≡ false → higher b c ≡ false → higher a c ≡ false
unfolding higher
higher_trans a b c h k = ltz_trans a.priority b.priority c.priority h k

-- the groups of one priority
pub has_priority : ℤ → RouteGroup → Bool
has_priority p g = g.priority == p

ltz_irrefl : (a : ℤ) → ltz a a ≡ false
ltz_irrefl (pos a) = ground arith
ltz_irrefl (negsuc a) = ground arith

tied :
    (p : ℤ) (a b : RouteGroup)
    → has_priority p a ≡ true
    → has_priority p b ≡ true
    → higher a b ≡ false
unfolding higher has_priority
tied p a b h k =
    let e : b.priority ≡ a.priority =
      (int_beq_iff b.priority p).0 k ∙ sym ((int_beq_iff a.priority p).0 h) in
    ap (λ x. ltz x a.priority) e ∙ ltz_irrefl a.priority

-- No later group has a greater priority.
pub Descending : List RouteGroup → Type 0
Descending [] = Unit
Descending (g ∷ gs) = All (λ h. ltz g.priority h.priority ≡ false) gs × Descending gs

InOrder-Descending : (gs : List RouteGroup) → InOrder higher gs → Descending gs
unfolding Descending InOrder higher
InOrder-Descending [] h = tt
InOrder-Descending (g ∷ gs) h = (h.0, InOrder-Descending gs h.1)

-- The hops of a group, then those of the next.
pub hops_of : List RouteGroup → List HopAddr
hops_of [] = []
hops_of (g ∷ gs) = g.hops ++ hops_of gs

all_hops-hops_of : (gs : List RouteGroup) → all_hops gs ≡ hops_of gs
unfolding all_hops hops_of
all_hops-hops_of [] = refl
all_hops-hops_of (g ∷ gs) = ap (λ x. g.hops ++ x) (all_hops-hops_of gs)

-- `SortGroups` gives the hops of its groups one group after the other, in an order of the groups in
-- which no later one has a greater priority, and in which the groups of each priority are those of the
-- configuration in the order it has them.
pub sort_groups_lem :
    (gs : List RouteGroup)
    → (sorted : List RouteGroup) × (sort_groups gs ≡ hops_of sorted)
      × Descending sorted
      × ((p : ℤ) → filter (has_priority p) sorted ≡ filter (has_priority p) gs)
unfolding sort_groups sorted_groups
sort_groups_lem gs = (
  sorted_groups gs,
  all_hops-hops_of (sorted_groups gs),
  InOrder-Descending (sorted_groups gs) (sort-InOrder higher higher_asymm higher_trans gs),
  (λ p. filter-sort higher (has_priority p) (tied p) gs),
)
