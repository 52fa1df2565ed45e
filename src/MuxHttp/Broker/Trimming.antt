-- ===== src/MuxHttp/Broker/Trimming.antt =====
-- What `trimAll` leaves to the edges: everything that they have not acknowledged.
use accel_proxy.MuxHttp.Broker.Finished.{remove_finished-get, trim_streams-get}
use accel_proxy.MuxHttp.Subscriptions.{subscribers}
use accel_proxy.Common.{
  Bool-cases, List, Option, Option-cases, String, [], ap, arith, beq_cases, bool_eq, if_both, inl,
  inr, length, ltb, nat_beq, nat_eq, none, pair_eq, refl, some, string_eq, subst, sym, true, ℕ, ◌<◌,
  ◌∙◌, ◌∷◌, ◌≡◌, ◌≤◌,
}
use accel_proxy.Common.Dict.{
  Dict, Single, insert, insert-Single, lookup, lookup-insert_ne, lookup-insert_self,
}
use accel_proxy.MuxHttp.Broker.{
  AckKey, PushBroker, lower, min_acks, remove_finished, remove_stream, set_buffer, trim_all,
  trim_stream, trim_streams,
}
use accel_proxy.MuxHttp.Buffer.{StreamBuffer, StreamError, read, trim}
use accel_proxy.MuxHttp.Buffer.Calls.{Holds, trim-Holds}
use accel_proxy.MuxHttp.Buffer.Log.{read-trim_held, trim_base}
use accel_proxy.MuxHttp.Registry.Index.{remove-buffers}
use accel_proxy.MuxHttp.Registry.{StreamEntry, StreamRegistry, closed_streams, get, get_by_id}
use accel_proxy.Wire.{Bytes}

-- The least offset that has been found for a stream, and one that is not more.
unfoldable pub Least : ℕ → ℕ → Dict ℕ ℕ → Type 0
Least i off m = (w : ℕ) × (lookup i m ≡ some w) × (w ≤ off)

lower-Single : (o : Option ℕ) (m : Dict ℕ ℕ) (i k off : ℕ) → Single i m → Single i (lower o m k off)
unfolding lower
lower-Single none m i k off s = insert-Single i k off m s
lower-Single (some w) m i k off s =
    if_both (Single i) (ltb off w) (λ t. insert-Single i k off m s) (λ t. s)

lower-Least_self :
    (o : Option ℕ) (m : Dict ℕ ℕ) (i off : ℕ) → lookup i m ≡ o → Least i off (lower o m i off)
unfolding lower Least
lower-Least_self none m i off e = (off, lookup-insert_self i off m, omega arith)
lower-Least_self (some w) m i off e =
    if_both (Least i off) (ltb off w) (λ t. (off, lookup-insert_self i off m, omega arith))
      (λ t. (w, e, ground arith))

lower-Least :
    (o : Option ℕ) (m : Dict ℕ ℕ) (i k off n : ℕ)
    → lookup k m ≡ o
    → Least i n m
    → Least i n (lower o m k off)
unfolding lower Least
lower-Least none m i k off n e (w, h, l) = elim (beq_cases k i) [
  | inl (t, p) ↦ (let q = sym (ap (λ x. lookup x m) p ∙ h) ∙ e in cc)
  | inr t ↦ (w, lookup-insert_ne k i off m t ∙ h, l)
]
lower-Least (some v) m i k off n e (w, h, l) =
    if_both (Least i n) (ltb off v)
      (λ t. elim (beq_cases k i) [
        | inl (u, p) ↦
            (let q : some v ≡ some w = sym e ∙ ap (λ x. lookup x m) p ∙ h in
              let r : v ≡ w = ground (arith, q) in
              (
                off,
                ap (λ x. lookup i (insert x off m)) p ∙ lookup-insert_self i off m,
                ground (arith, t, l, r),
              ))
        | inr u ↦ (w, lookup-insert_ne k i off m u ∙ h, l)
      ])
      (λ t. (w, h, l))

min_acks-Single : (t : Dict AckKey ℕ) (m : Dict ℕ ℕ) (i : ℕ) → Single i m → Single i (min_acks t m)
unfolding min_acks
min_acks-Single [] m i s = s
min_acks-Single ((k, off) ∷ more) m i s =
    min_acks-Single more (lower (lookup k.1 m) m k.1 off) i
      (lower-Single (lookup k.1 m) m i k.1 off s)

min_acks-Least :
    (t : Dict AckKey ℕ) (m : Dict ℕ ℕ) (i n : ℕ) → Least i n m → Least i n (min_acks t m)
unfolding min_acks
min_acks-Least [] m i n l = l
min_acks-Least ((k, off) ∷ more) m i n l =
    min_acks-Least more (lower (lookup k.1 m) m k.1 off) i n
      (lower-Least (lookup k.1 m) m i k.1 off n refl l)

min_acks-Least_acked :
    (t : Dict AckKey ℕ) (m : Dict ℕ ℕ) (node : String) (i n : ℕ)
    → lookup (node, i) t ≡ some n
    → Least i n (min_acks t m)
unfolding min_acks lookup
min_acks-Least_acked [] m node i n e = cc
min_acks-Least_acked ((k, off) ∷ more) m node i n e = elim (beq_cases k (node, i)) [
  | inl (t, p) ↦
      (let q : off ≡ n = ground (arith, e, t) in
        min_acks-Least more (lower (lookup k.1 m) m k.1 off) i n (
          subst (λ x. Least i n (lower (lookup x.1 m) m x.1 off)) (sym p)
            (subst (λ x. Least i x (lower (lookup i m) m i off)) q
              (lower-Least_self (lookup i m) m i off refl))))
  | inr h ↦
      min_acks-Least_acked more (lower (lookup k.1 m) m k.1 off) node i n (ground (arith, e, h))
]

-- No two streams have the same buffer.
unfoldable pub OwnsBuffers : StreamRegistry → Type 0
OwnsBuffers r =
    (i j : ℕ) (e f : StreamEntry)
    → get_by_id r i ≡ some e
    → get_by_id r j ≡ some f
    → e.buffer ≡ f.buffer
    → i ≡ j

-- A buffer that an edge reads at an offset, and what it answers there.
record Serves (b : StreamBuffer) (log : Bytes) (offset len : ℕ) (out : Bytes × Option StreamError)
    : Type 0 where
  pub held_log : Holds b log
  pub in_base : b.base_offset ≤ offset
  pub same : read b offset len ≡ out

trim-Serves :
    (b : StreamBuffer) (log : Bytes) (n offset len : ℕ) (out : Bytes × Option StreamError)
    → n ≤ offset
    → Serves b log offset len out
    → Serves (trim b n) log offset len out
trim-Serves b log n offset len out h v = record {
  held_log = trim-Holds b log n v.held_log;
  in_base = omega (arith, trim_base b log n v.held_log, v.in_base, h);
  same = read-trim_held b log n offset len v.held_log v.in_base h ∙ v.same;
}

trim_stream-get_by_id :
    (r : StreamRegistry) (o : Option StreamEntry) (off i : ℕ)
    → get_by_id (trim_stream r o off) i ≡ get_by_id r i
unfolding trim_stream set_buffer get_by_id
trim_stream-get_by_id r none off i = refl
trim_stream-get_by_id r (some d) off i = refl

trim_stream-OwnsBuffers :
    (r : StreamRegistry) (o : Option StreamEntry) (off : ℕ)
    → OwnsBuffers r
    → OwnsBuffers (trim_stream r o off)
unfolding OwnsBuffers
trim_stream-OwnsBuffers r o off v i j e f g h b =
    v i j e f (sym (trim_stream-get_by_id r o off i) ∙ g)
      (sym (trim_stream-get_by_id r o off j) ∙ h) b

module _ (i offset len : ℕ) (e : StreamEntry) (log : Bytes) (out : Bytes × Option StreamError) where
  trim_stream-Serves :
      (r : StreamRegistry) (k off : ℕ) (o : Option StreamEntry)
      → OwnsBuffers r
      → get_by_id r i ≡ some e
      → get_by_id r k ≡ o
      → (nat_beq k i ≡ true → off ≤ offset)
      → Serves (r.buffers e.buffer) log offset len out
      → Serves ((trim_stream r o off).buffers e.buffer) log offset len out
  unfolding trim_stream set_buffer OwnsBuffers
  trim_stream-Serves r k off none o g h l v = v
  trim_stream-Serves r k off (some d) o g h l v =
      if_both (λ b. Serves b log offset len out) (nat_beq e.buffer d.buffer)
        (λ t.
          let same : e.buffer ≡ d.buffer = ground (arith, t) in
          let at : k ≡ i = sym (o i k e d g h same) in
          trim-Serves (r.buffers d.buffer) log off offset len out (l (ground (arith, at)))
            (subst (λ x. Serves (r.buffers x) log offset len out) same v))
        (λ t. v)

  trim_streams-Serves :
      (mins : Dict ℕ ℕ) (r : StreamRegistry)
      → OwnsBuffers r
      → get_by_id r i ≡ some e
      → Single i mins
      → ((w : ℕ) → lookup i mins ≡ some w → w ≤ offset)
      → Serves (r.buffers e.buffer) log offset len out
      → Serves ((trim_streams r mins).buffers e.buffer) log offset len out
  unfolding trim_streams Single lookup
  trim_streams-Serves [] r o g s b v = v
  trim_streams-Serves ((k, off) ∷ more) r o g (h, s) b v =
      trim_streams-Serves more (trim_stream r (get_by_id r k) off)
        (trim_stream-OwnsBuffers r (get_by_id r k) off o)
        (trim_stream-get_by_id r (get_by_id r k) off i ∙ g) s rest
        (trim_stream-Serves r k off (get_by_id r k) o g refl (λ t. b off (ground (arith, t))) v)
    where
      rest : (w : ℕ) → lookup i more ≡ some w → w ≤ offset
      rest w x = elim (Bool-cases (nat_beq k i)) [
        | inl t ↦ (let y = h t in cc)
        | inr t ↦ b w (ground (arith, t, x))
      ]

-- The last loop of `trimAll` leaves the buffers as they are.
remove_stream-buffers :
    (b : PushBroker) (name : String) → (remove_stream b name).streams.buffers ≡ b.streams.buffers
unfolding remove_stream
remove_stream-buffers b name = elim (Option-cases (get b.streams name)) [
  | inl e ↦ ground (arith, e)
  | inr (x, e) ↦ ground (arith, e, remove-buffers b.streams name)
]

remove_finished-buffers :
    (names : List String) (b : PushBroker)
    → (remove_finished b names).streams.buffers ≡ b.streams.buffers
unfolding remove_finished
remove_finished-buffers [] b = refl
remove_finished-buffers (name ∷ more) b =
    if_both (λ (c : PushBroker). (remove_finished c more).streams.buffers ≡ b.streams.buffers)
      (nat_beq (length (subscribers b.subs name)) 0)
      (λ t. remove_finished-buffers more (remove_stream b name) ∙ remove_stream-buffers b name)
      (λ t. remove_finished-buffers more b)

-- `trimAll` takes nothing of a stream from a subscriber that it has not acknowledged. Where the stream
-- is in the registry and has a subscriber, it is there by its name after it as before, also when it is
-- closed; and at every offset from the one that a node has acknowledged on, its buffer answers a read
-- as before. The table has an acknowledgement of that node for the stream, the buffer holds a log, from
-- an offset that is not past the one read at, and no two streams have the same buffer.
pub read-trim_all :
    (b : PushBroker) (node_id : String) (stream_id acked offset len : ℕ) (e : StreamEntry)
    (log : Bytes)
    → OwnsBuffers b.streams
    → get_by_id b.streams stream_id ≡ some e
    → get b.streams e.name ≡ some e
    → 0 < length (subscribers b.subs e.name)
    → lookup (node_id, stream_id) b.ack_table ≡ some acked
    → Holds (b.streams.buffers e.buffer) log
    → (b.streams.buffers e.buffer).base_offset ≤ offset
    → acked ≤ offset
    → (get (trim_all b).streams e.name ≡ some e)
      × (read ((trim_all b).streams.buffers e.buffer) offset len
          ≡ read (b.streams.buffers e.buffer) offset len)
unfolding trim_all Single Least
read-trim_all b node_id stream_id acked offset len e log o g n k a v p q = (
  remove_finished-get names b' e.name k ∙ trim_streams-get mins b.streams e.name ∙ n,
  ap (λ f. read (f e.buffer) offset len) (remove_finished-buffers names b')
      ∙ (trim_streams-Serves stream_id offset len e log
          (read (b.streams.buffers e.buffer) offset len) mins b.streams o g
          (min_acks-Single b.ack_table [] stream_id tt) least
          (record { held_log = v; in_base = p; same = refl })).same,
)
  where
    mins : Dict ℕ ℕ
    mins = min_acks b.ack_table []

    b' : PushBroker
    b' = record b { streams = trim_streams b.streams mins }

    names : List String
    names = closed_streams b'.streams

    least : (w : ℕ) → lookup stream_id mins ≡ some w → w ≤ offset
    least w x =
        let (y, f, l) = min_acks-Least_acked b.ack_table [] node_id stream_id acked a in
        let same : some w ≡ some y = sym x ∙ f in ground (arith, same, l, q)
