-- ===== src/Tunnel/Transport/Chunks.antt =====
-- The messages that a write is cut into.
use accel_proxy.Tunnel.Transport.{
  Transport, TransportError, mark_dead, write, write_failed, write_loop,
}
use accel_proxy.Common.{
  All, Bool, List, Option, [], ap, append-nil, append_assoc, arith, drop, false, if_both, is_some,
  length, length-drop, length-take, min, none, refl, some, subst, suc, sym, take, take-split,
  take_nil, take_none, true, zero, ℕ, ◌++◌, ◌+◌, ◌-◌, ◌<◌, ◌∙◌, ◌∷◌, ◌≡◌, ◌≤◌,
}
use accel_proxy.Wire.{Bytes}

unfoldable pub join : List Bytes → Bytes
join [] = []
join (m ∷ ms) = m ++ join ms

join-append : (ms : List Bytes) (m : Bytes) → join (ms ++ (m ∷ [])) ≡ join ms ++ m
unfolding join
join-append [] m = append-nil m
join-append (x ∷ ms) m = ap (λ t. x ++ t) (join-append ms m) ∙ sym (append_assoc x (join ms) m)

-- A message that the other side's read limit admits.
unfoldable pub Fits : ℕ → Bytes → Type 0
Fits n m = (0 < length m) × (length m ≤ n)

-- What a write of `p` has done, from the messages before it: those after them fit and hold the first
-- bytes of `p`, as many as it says; all of them if there is no error, and the transport is dead if
-- there is one.
pub record Written (t : Transport) (p : Bytes) (t' : Transport) (total : ℕ)
    (e : Option TransportError) : Type 0 where
  pub same_size : t'.frame_size ≡ t.frame_size
  pub joined : join t'.sent ≡ join t.sent ++ take total p
  pub in_range : total ≤ length p
  pub fits : All (Fits t.frame_size) t.sent → All (Fits t.frame_size) t'.sent
  pub complete : e ≡ none → (total ≡ length p) × (t'.dead ≡ t.dead)
  pub broken : is_some e ≡ true → t'.dead ≡ true

-- What the loop has done, from `before` bytes on.
Loops : Transport → Bytes → ℕ → Transport × ℕ × Option TransportError → Type 0
Loops t p before (t', total, e) = (before ≤ total) × Written t p t' (total - before) e

All-snoc :
    (n : ℕ) (ms : List Bytes) (m : Bytes)
    → All (Fits n) ms
    → Fits n m
    → All (Fits n) (ms ++ (m ∷ []))
All-snoc n [] m h f = (f, tt)
All-snoc n (x ∷ ms) m h f = (h.0, All-snoc n ms m h.1 f)

stopped :
    (t : Transport) (p : Bytes) (total : ℕ)
    → Loops t p total (mark_dead t, total, some write_failed)
unfolding Loops mark_dead
stopped t p total = (
  omega arith,
  record {
    same_size = refl;
    joined = sym (
        ap (λ x. join t.sent ++ x) (take_none (total - total) p (omega arith))
        ∙ append-nil (join t.sent));
    in_range = omega arith;
    fits = λ h. h;
    complete = λ e. cc;
    broken = λ e. refl;
  },
)

write_loop-Loops :
    (fuel k : ℕ) (writes : ℕ → Bool) (t : Transport) (p : Bytes) (total : ℕ)
    → 0 < t.frame_size
    → length p ≤ fuel
    → Loops t p total (write_loop fuel writes k t p total)
unfolding write_loop Loops Fits
write_loop-Loops fuel k writes t [] total h l = (
  omega arith,
  record {
    same_size = refl;
    joined = sym (ap (λ x. join t.sent ++ x) (take_nil (total - total)) ∙ append-nil (join t.sent));
    in_range = omega arith;
    fits = λ h. h;
    complete = λ e. (omega arith, refl);
    broken = λ e. cc;
  },
)
write_loop-Loops zero k writes t (x ∷ xs) total h l = absurd (omega arith)
write_loop-Loops (suc fuel) k writes t (x ∷ xs) total h l =
    if_both (Loops t (x ∷ xs) total) (writes k)
      (λ w. more (
        write_loop-Loops fuel (k + 1) writes after (drop n (x ∷ xs)) (total + n) h
          (omega (arith, l, h, length-drop n (x ∷ xs)))))
      (λ w. stopped t (x ∷ xs) total)
  where
    n : ℕ
    n = min t.frame_size (length (x ∷ xs))

    m : Bytes
    m = take n (x ∷ xs)

    sized : length m ≡ n
    sized = omega (arith, length-take n (x ∷ xs))

    after : Transport
    after = record t { sent = t.sent ++ (m ∷ []) }

    result : Transport × ℕ × Option TransportError
    result = write_loop fuel writes (k + 1) after (drop n (x ∷ xs)) (total + n)

    more : Loops after (drop n (x ∷ xs)) (total + n) result → Loops t (x ∷ xs) total result
    more (b, v) =
        (let (t', sum, e) = result in
          let left : sum - total - n ≡ sum - (total + n) = omega arith in
          (
            omega (arith, b),
            record {
              same_size = v.same_size;
              joined =
                  v.joined
                  ∙ ap (λ y. y ++ take (sum - (total + n)) (drop n (x ∷ xs))) (join-append t.sent m)
                  ∙ append_assoc (join t.sent) m (take (sum - (total + n)) (drop n (x ∷ xs)))
                  ∙ ap (λ y. join t.sent ++ y)
                      (ap (λ j. m ++ take j (drop n (x ∷ xs))) (sym left)
                        ∙ sym (take-split n (sum - total) (x ∷ xs) (omega (arith, b))));
              in_range = omega (arith, b, v.in_range, length-drop n (x ∷ xs));
              fits = λ a. v.fits (
                  All-snoc t.frame_size t.sent m a (omega (arith, sized, h), omega (arith, sized)));
              complete = λ g.
                  let (c, d) = v.complete g in (omega (arith, b, c, length-drop n (x ∷ xs)), d);
              broken = v.broken;
            },
          ))

-- A write on a transport that is not dead cuts the bytes into messages, none of them empty and none
-- longer than the frame size, which in their order are the bytes; it returns how many were sent, all
-- when there is no error; and an error leaves the transport dead. The frame size is positive, as
-- `NewTransport` makes it.
pub write-Written :
    (writes : ℕ → Bool) (t : Transport) (p : Bytes)
    → 0 < t.frame_size
    → t.dead ≡ false
    → let (t', total, e) = write writes t p in Written t p t' total e
unfolding write Loops
write-Written writes t p h d =
    if_both (λ (r : Transport × ℕ × Option TransportError). Written t p r.0 r.1 r.2) t.dead
      (λ c. absurd (let f = d in cc))
      (λ c.
        let (t', total, e) = write_loop (length p) writes 0 t p 0 in
        let (b, v) = write_loop-Loops (length p) 0 writes t p 0 h (omega arith) in
        let same : total - 0 ≡ total = omega arith in subst (λ n. Written t p t' n e) same v)
