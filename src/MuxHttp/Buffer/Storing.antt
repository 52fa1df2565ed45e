-- ===== src/MuxHttp/Buffer/Storing.antt =====
-- The loop of `Append` stores all its bytes, in order, in contiguous segments.
use accel_proxy.Common.{
  List, [], ap, append-nil, append_assoc, arith, drop, false, length, length-append, length-drop,
  length-take, min, refl, subst, suc, sym, take, take-append-drop, zero, ℕ, ◌++◌, ◌+◌, ◌-◌, ◌<◌,
  ◌∙◌, ◌∷◌, ◌≡◌, ◌≤◌,
}
use accel_proxy.MuxHttp.Buffer.{
  Segment, append_loop, extend_last, last_length, needs_segment, segment_size, with_room,
}
use accel_proxy.MuxHttp.Buffer.Chain.{Chain, held}
use accel_proxy.Wire.{Bytes}

room_left : (segs : List Segment) → needs_segment segs ≡ false → last_length segs < segment_size
unfolding needs_segment last_length
room_left [] h = cc
room_left (s ∷ []) h = ground arith
room_left (s ∷ t ∷ more) h = room_left (t ∷ more) h

extend_last_lem :
    (o : ℕ) (segs : List Segment) (w : ℕ) (chunk : Bytes)
    → Chain o segs w
    → needs_segment segs ≡ false
    → last_length segs + length chunk ≤ segment_size
    → Chain o (extend_last segs chunk) (w + length chunk)
      × (held (extend_last segs chunk) ≡ held segs ++ chunk)
unfolding needs_segment last_length extend_last Chain held
extend_last_lem o [] w chunk c n h = cc
extend_last_lem o (s ∷ []) w chunk c n h = (
  (
    c.0,
    omega (arith, h, length-append s.bytes chunk),
    omega (arith, c.2, length-append s.bytes chunk),
  ),
  append-nil (s.bytes ++ chunk) ∙ sym (ap (λ x. x ++ chunk) (append-nil s.bytes)),
)
extend_last_lem o (s ∷ t ∷ more) w chunk c n h =
    let (d, e) = extend_last_lem (o + length s.bytes) (t ∷ more) w chunk c.2 n h in
    ((c.0, c.1, d), ap (λ x. s.bytes ++ x) e ∙ sym (append_assoc s.bytes (held (t ∷ more)) chunk))

abbrev fresh : ℕ → Segment
fresh at = record { base_offset = at; bytes = [] }

add_segment :
    (o : ℕ) (segs : List Segment) (w : ℕ)
    → Chain o segs w
    → Chain o (segs ++ (fresh w ∷ [])) w
      × (held (segs ++ (fresh w ∷ [])) ≡ held segs)
      × (needs_segment (segs ++ (fresh w ∷ [])) ≡ false)
unfolding Chain held needs_segment
add_segment o [] w c = ((sym c, omega arith, omega (arith, c)), refl, refl)
add_segment o (s ∷ []) w c = ((c.0, c.1, (sym c.2, omega arith, omega (arith, c.2))), refl, refl)
add_segment o (s ∷ t ∷ more) w c =
    let (a, b, n) = add_segment (o + length s.bytes) (t ∷ more) w c.2 in
    ((c.0, c.1, a), ap (λ x. s.bytes ++ x) b, n)

with_room_lem :
    (o : ℕ) (segs : List Segment) (w : ℕ)
    → Chain o segs w
    → Chain o (with_room segs w) w
      × (held (with_room segs w) ≡ held segs)
      × (needs_segment (with_room segs w) ≡ false)
unfolding with_room
with_room_lem o segs w c = ground (arith, add_segment o segs w c)

pub append_loop_lem :
    (fuel o : ℕ) (segs : List Segment) (at : ℕ) (xs : Bytes)
    → Chain o segs at
    → length xs ≤ fuel
    → Chain o (append_loop fuel segs at xs) (at + length xs)
      × (held (append_loop fuel segs at xs) ≡ held segs ++ xs)
unfolding append_loop
append_loop_lem fuel o segs at [] c h =
    (subst (λ k. Chain o segs k) (omega arith) c, sym (append-nil (held segs)))
append_loop_lem zero o segs at (x ∷ xs) c h = absurd (omega arith)
append_loop_lem (suc fuel) o segs at (x ∷ xs) c h =
    let (c', e, r) = with_room_lem o segs at c in
    let (d, g) =
      extend_last_lem o (with_room segs at) at (take n (x ∷ xs)) c' r
        (omega (arith, length-take n (x ∷ xs), room_left (with_room segs at) r)) in
    let (k, l) =
      append_loop_lem fuel o (extend_last (with_room segs at) (take n (x ∷ xs))) (at + n)
        (drop n (x ∷ xs))
        (subst (λ k. Chain o (extend_last (with_room segs at) (take n (x ∷ xs))) (at + k))
          (omega (arith, length-take n (x ∷ xs))) d)
        (omega (arith, length-drop n (x ∷ xs), room_left (with_room segs at) r)) in
    (
      subst
          (λ m.
            Chain o
              (append_loop fuel (extend_last (with_room segs at) (take n (x ∷ xs))) (at + n)
                (drop n (x ∷ xs)))
              m)
          (omega (arith, length-drop n (x ∷ xs))) k,
      l
          ∙ ap (λ y. y ++ drop n (x ∷ xs)) (g ∙ ap (λ y. y ++ take n (x ∷ xs)) e)
          ∙ append_assoc (held segs) (take n (x ∷ xs)) (drop n (x ∷ xs))
          ∙ ap (λ y. held segs ++ y) (take-append-drop n (x ∷ xs)),
    )
  where
    n : ℕ
    n = min (length (x ∷ xs)) (segment_size - last_length (with_room segs at))
