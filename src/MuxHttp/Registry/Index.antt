-- ===== src/MuxHttp/Registry/Index.antt =====
-- The index by id and the map by name hold the same entries.
use accel_proxy.Common.{
  Option, Option-cases, String, ap, arith, beq_cases, bool_eq, false, inl, inr, nat_beq_iff, nat_eq,
  none, pair_eq, refl, some, string_eq, subst, sym, ℕ, ◌%◌, ◌+◌, ◌<◌, ◌==◌, ◌^◌, ◌∙◌, ◌≡◌, ◌≢◌, ◌≤◌,
}
use accel_proxy.Common.Dict.{
  delete, insert, lookup, lookup-delete_ne, lookup-delete_self, lookup-insert_ne,
  lookup-insert_self,
}
use accel_proxy.MuxHttp.Registry.{
  StreamEntry, StreamRegistry, add_entry, alloc_stream_id, get, get_by_id, get_or_create, new_entry,
  remove,
}

pub record IsRegistry (r : StreamRegistry) : Type 0 where
  pub by_name :
      (name : String) (e : StreamEntry)
      → get r name ≡ some e
      → (e.name ≡ name) × (get_by_id r e.id ≡ some e) × (e.id ≤ r.next_stream_id)
  pub by_number :
      (id : ℕ) (e : StreamEntry) → get_by_id r id ≡ some e → (e.id ≡ id) × (get r e.name ≡ some e)

alloc_stream_id_lem : (c : ℕ) → c + 1 < 2 ^ 32 → alloc_stream_id c ≡ c + 1
unfolding alloc_stream_id
alloc_stream_id_lem c h = ground (arith, small-mod (c + 1) h)
  where
    small-mod : (x : ℕ) → x < 2 ^ 32 → x % 2 ^ 32 ≡ x
    small-mod x l = omega arith

some-inj : {a b : StreamEntry} → some a ≡ some b → a ≡ b
some-inj e = cc

ne→text : (a b : String) → a ≢ b → (a == b) ≡ false
ne→text a b n = elim (beq_cases a b) [ inl (t, p) ↦ absurd (n p) | inr t ↦ t ]

ne→beq : (a b : ℕ) → a ≢ b → (a == b) ≡ false
ne→beq a b n = ground arith

module _ (r : StreamRegistry) (e : StreamEntry) (v : IsRegistry r)
    (fresh_name : get r e.name ≡ none) (fresh_id : e.id ≡ r.next_stream_id + 1) where
  other_name : (d : StreamEntry) → get r d.name ≡ some d → (e.name == d.name) ≡ false
  other_name d l = elim (beq_cases e.name d.name) [
    | inl (t, p) ↦ (let q = sym (ap (get r) p ∙ l) ∙ fresh_name in cc)
    | inr t ↦ t
  ]

  entry_by_name :
      (name : String) (d : StreamEntry)
      → get (add_entry r e) name ≡ some d
      → (d.name ≡ name)
        × (get_by_id (add_entry r e) d.id ≡ some d)
        × (d.id ≤ (add_entry r e).next_stream_id)
  unfolding get get_by_id add_entry
  entry_by_name name d h = elim (beq_cases e.name name) [
    | inl (t, p) ↦
        (let q : e ≡ d = some-inj (
            sym (lookup-insert_self e.name e r.streams)
            ∙ ap (λ x. lookup x (insert e.name e r.streams)) p
            ∙ h) in
          subst
            (λ x. (x.name ≡ name) × (lookup x.id (insert e.id e r.by_id) ≡ some x) × (x.id ≤ e.id))
            q (p, lookup-insert_self e.id e r.by_id, omega arith))
    | inr t ↦
        (let (n, l, le) = v.by_name name d (sym (lookup-insert_ne e.name name e r.streams t) ∙ h) in
          (
            n,
            lookup-insert_ne e.id d.id e r.by_id (ne→beq e.id d.id (omega (arith, fresh_id))) ∙ l,
            omega (arith, fresh_id),
          ))
  ]

  entry_by_number :
      (id : ℕ) (d : StreamEntry)
      → get_by_id (add_entry r e) id ≡ some d
      → (d.id ≡ id) × (get (add_entry r e) d.name ≡ some d)
  unfolding get get_by_id add_entry
  entry_by_number id d h = elim (beq_cases e.id id) [
    | inl (t, p) ↦
        (let q : e ≡ d = some-inj (
            sym (lookup-insert_self e.id e r.by_id)
            ∙ ap (λ x. lookup x (insert e.id e r.by_id)) p
            ∙ h) in
          subst (λ x. (x.id ≡ id) × (lookup x.name (insert e.name e r.streams) ≡ some x)) q
            (p, lookup-insert_self e.name e r.streams))
    | inr t ↦
        (let (n, l) = v.by_number id d (sym (lookup-insert_ne e.id id e r.by_id t) ∙ h) in
          (n, lookup-insert_ne e.name d.name e r.streams (other_name d l) ∙ l))
  ]

  add_entry-IsRegistry : IsRegistry (add_entry r e)
  add_entry-IsRegistry = record { by_name = entry_by_name; by_number = entry_by_number }

-- As long as ids have not wrapped around: `GetOrCreate` keeps the two maps of the registry in
-- step, and the entry it returns is the one that both `Get` finds by its name and `GetByID` by its
-- id.
pub get_or_create_lem :
    (r : StreamRegistry) (name : String)
    → IsRegistry r
    → r.next_stream_id + 1 < 2 ^ 32
    → let (r', e) = get_or_create r name in
      IsRegistry r' × (get r' name ≡ some e) × (get_by_id r' e.id ≡ some e)
unfolding get_or_create get get_by_id add_entry new_entry
get_or_create_lem r name v h = found (lookup name r.streams) refl
  where
    found :
        (o : Option StreamEntry)
        → get r name ≡ o
        → let out : StreamRegistry × StreamEntry = elim o [
          | some e ↦ (r, e)
          | none ↦ (add_entry r (new_entry r name), new_entry r name)
        ] in
          IsRegistry out.0 × (get out.0 name ≡ some out.1) × (get_by_id out.0 out.1.id ≡ some out.1)
    found (some e) q = (v, q, (v.by_name name e q).1)
    found none q = (
      add_entry-IsRegistry r (new_entry r name) v q (alloc_stream_id_lem r.next_stream_id h),
      lookup-insert_self name (new_entry r name) r.streams,
      lookup-insert_self (new_entry r name).id (new_entry r name) r.by_id,
    )

module _ (r : StreamRegistry) (name : String) (e : StreamEntry) (v : IsRegistry r)
    (there : get r name ≡ some e) where
  left : StreamRegistry
  left = record r { by_id = delete e.id r.by_id; streams = delete name r.streams }

  -- An entry of the name, or of the id, is the one that goes.
  same_name : (d : StreamEntry) → get r d.name ≡ some d → d.name ≡ name → d.id ≡ e.id
  same_name d g p = (let z = some-inj (sym g ∙ ap (get r) p ∙ there) in ap (λ x. x.id) z)

  same_id : (d : StreamEntry) (n : String) → get r n ≡ some d → d.id ≡ e.id → n ≡ name
  same_id d n g p =
      let (a, b, c) = v.by_name n d g in
      let (a', b', c') = v.by_name name e there in
      let z = some-inj (sym b ∙ ap (get_by_id r) p ∙ b') in sym a ∙ ap (λ x. x.name) z ∙ a'

  left_by_number :
      (id : ℕ) (d : StreamEntry)
      → get_by_id left id ≡ some d
      → ((d.id ≡ id) × (get left d.name ≡ some d)) × (d.name ≢ name)
  unfolding left get get_by_id
  left_by_number id d h = elim (beq_cases e.id id) [
    | inl (t, p) ↦
        (let z =
            sym (lookup-delete_self e.id r.by_id)
            ∙ ap (λ x. lookup x (delete e.id r.by_id)) p
            ∙ h in
          cc)
    | inr t ↦
        (let (i, g) = v.by_number id d (sym (lookup-delete_ne e.id id r.by_id t) ∙ h) in
          let n : d.name ≢ name =
            λ p. (let w = (nat_beq_iff e.id id).1 (sym (same_name d g p) ∙ i) in cc) in
          (
            (i, lookup-delete_ne name d.name r.streams (ne→text name d.name (λ p. n (sym p))) ∙ g),
            n,
          ))
  ]

  left_by_name :
      (n : String) (d : StreamEntry)
      → get left n ≡ some d
      → (d.name ≡ n) × (get_by_id left d.id ≡ some d) × (d.id ≤ r.next_stream_id)
  unfolding left get get_by_id
  left_by_name n d h = elim (beq_cases name n) [
    | inl (t, p) ↦
        (let z =
            sym (lookup-delete_self name r.streams)
            ∙ ap (λ x. lookup x (delete name r.streams)) p
            ∙ h in
          cc)
    | inr t ↦
        (let g = sym (lookup-delete_ne name n r.streams t) ∙ h in
          let (a, b, c) = v.by_name n d g in
          (
            a,
            lookup-delete_ne e.id d.id r.by_id (
                  ne→beq e.id d.id (λ p.
                    (let w = (string_eq.beq_iff name n).1 (sym (same_id d n g (sym p))) in cc)))
                ∙ b,
            c,
          ))
  ]

-- `Remove` keeps the two maps in step, and after it neither `Get` finds the name nor `GetByID` an
-- entry of that name.
pub remove_lem :
    (r : StreamRegistry) (name : String)
    → IsRegistry r
    → IsRegistry (remove r name)
      × (get (remove r name) name ≡ none)
      × ((id : ℕ) (e : StreamEntry) → get_by_id (remove r name) id ≡ some e → e.name ≢ name)
unfolding remove get get_by_id left
remove_lem r name v = found (lookup name r.streams) refl
  where
    found :
        (o : Option StreamEntry)
        → get r name ≡ o
        → let out : StreamRegistry = elim o [
          | some e ↦ record r { by_id = delete e.id r.by_id; streams = delete name r.streams }
          | none ↦ r
        ] in
          IsRegistry out
          × (get out name ≡ none)
          × ((id : ℕ) (e : StreamEntry) → get_by_id out id ≡ some e → e.name ≢ name)
    found none q = (
      v,
      q,
      (λ id d h p.
          (let (i, g) = v.by_number id d h in let z = sym q ∙ ap (get r) (sym p) ∙ g in cc)),
    )
    found (some e) q = (
      record {
        by_name = left_by_name r name e v q;
        by_number = λ id d h. (left_by_number r name e v q id d h).0;
      },
      lookup-delete_self name r.streams,
      (λ id d h. (left_by_number r name e v q id d h).1),
    )

pub remove-buffers : (r : StreamRegistry) (name : String) → (remove r name).buffers ≡ r.buffers
unfolding remove
remove-buffers r name = elim (Option-cases (lookup name r.streams)) [
  | inl e ↦ ground (arith, e)
  | inr (x, e) ↦ ground (arith, e)
]

pub get-remove_ne :
    (r : StreamRegistry) (gone name : String)
    → (gone == name) ≡ false
    → get (remove r gone) name ≡ get r name
unfolding remove get
get-remove_ne r gone name n = elim (Option-cases (lookup gone r.streams)) [
  | inl e ↦ ground (arith, e)
  | inr (x, e) ↦ ground (arith, e, lookup-delete_ne gone name r.streams n)
]
