-- ===== src/MuxHttp/Buffer/Access.antt =====
-- The segments that `Read` and `Trim` skip, and what the loop of `Read` copies.
use accel_proxy.Common.{
  Bool-cases, List, [], ap, append-nil, arith, drop, drop-append_ge, drop-append_le, drop_all,
  drop_none, false, get_or, inl, inr, length, length-drop, ltb, ltb→lt, max, refl, subst, sym, take,
  take-append_ge, take-append_le, take_all, take_none, true, ℕ, ◌++◌, ◌+◌, ◌-◌, ◌∙◌, ◌∷◌, ◌≡◌, ◌≤◌,
}
use accel_proxy.MuxHttp.Buffer.{Segment, no_segment, read_loop, start_of}
use accel_proxy.MuxHttp.Buffer.Chain.{Chain, Chain-size, held, passed}

-- Dropping the segments that end at or before an offset.
ltb-ge : (a b : ℕ) → ltb a b ≡ false → b ≤ a
ltb-ge a b h = ground arith

pub drop-passed :
    (o : ℕ) (segs : List Segment) (w offset : ℕ)
    → Chain o segs w
    → let left = drop (passed segs offset) segs in
      Chain (start_of left w) left w
      × (held left ≡ drop (start_of left w - o) (held segs))
      × (o ≤ start_of left w)
      × (start_of left w ≤ max o offset)
      × (start_of left w ≤ w)
unfolding passed Chain held
drop-passed o [] w offset c =
    (refl, sym (drop_all (w - o) [] (omega arith)), omega (arith, c), omega (arith, c), omega arith)
drop-passed o (s ∷ more) w offset c =
    elim (Bool-cases (ltb offset (s.base_offset + length s.bytes))) [
      | inl t ↦ rw t (
        (refl, c.1, subst (λ k. Chain (k + length s.bytes) more w) (sym c.0) c.2),
        sym (drop_none (s.base_offset - o) (s.bytes ++ held more) (omega (arith, c.0))),
        omega (arith, c.0),
        omega (arith, c.0),
        omega (arith, c.0, Chain-size (o + length s.bytes) more w c.2),
      )
      | inr t ↦ rw t (
          let (a, b, d, e, f) = drop-passed (o + length s.bytes) more w offset c.2 in
          let p = ltb-ge offset (s.base_offset + length s.bytes) t in
          (
            a,
            b
                ∙ ap (λ k. drop k (held more)) (omega arith)
                ∙ sym (
                    drop-append_ge (start_of (drop (passed more offset) more) w - o) s.bytes
                      (held more) (omega (arith, c.0))),
            omega arith,
            omega (arith, c.0),
            f,
          ))
    ]

read_loop_full :
    (segs : List Segment) (offset n len : ℕ) → len ≤ n → read_loop segs offset n len ≡ []
unfolding read_loop
read_loop_full [] offset n len h = refl
read_loop_full (s ∷ more) offset n len h = ground arith

read_loop_nil : (offset n len : ℕ) → read_loop [] offset n len ≡ []
unfolding read_loop
read_loop_nil offset n len = refl

-- A round that ends with a full destination, and one that ends with the segment.
read_loop_last :
    (seg : Segment) (more : List Segment) (offset n len : ℕ)
    → ltb n len ≡ true
    → ltb (len - n) (length seg.bytes - (offset + n - seg.base_offset)) ≡ true
    → read_loop (seg ∷ more) offset n len
      ≡ take (len - n) (drop (offset + n - seg.base_offset) seg.bytes)
        ++ read_loop more offset (n + (len - n)) len
unfolding read_loop
read_loop_last seg more offset n len p q = rw p (
    rw q (
      ap
        (λ k.
          take k (drop (offset + n - seg.base_offset) seg.bytes)
          ++ read_loop more offset (n + k) len)
        (omega arith)))

read_loop_next :
    (seg : Segment) (more : List Segment) (offset n len : ℕ)
    → ltb n len ≡ true
    → ltb (len - n) (length seg.bytes - (offset + n - seg.base_offset)) ≡ false
    → read_loop (seg ∷ more) offset n len
      ≡ take
          (length seg.bytes - (offset + n - seg.base_offset))
          (drop (offset + n - seg.base_offset) seg.bytes)
        ++ read_loop more offset (n + (length seg.bytes - (offset + n - seg.base_offset))) len
unfolding read_loop
read_loop_next seg more offset n len p q = rw p (rw q)

pub read_loop_lem :
    (o : ℕ) (segs : List Segment) (w offset n len : ℕ)
    → Chain o segs w
    → o ≤ offset + n
    → n ≤ len
    → offset + n - o ≤ length (get_or segs 0 no_segment).bytes
    → read_loop segs offset n len ≡ take (len - n) (drop (offset + n - o) (held segs))
unfolding Chain held
read_loop_lem o [] w offset n len c h k l = ground (
  arith,
  read_loop_nil offset n len,
  drop_all (offset + n - o) (held []),
  take_all (len - n) (held []),
)
read_loop_lem o (s ∷ more) w offset n len c h k l = ground (
  arith,
  c,
  drop-append_le (offset + n - o) s.bytes (held more),
  length-drop (offset + n - o) s.bytes,
  take-append_le (len - n) (drop (offset + n - o) s.bytes) (held more),
  take-append_ge (len - n) (drop (offset + n - o) s.bytes) (held more),
  take_none (len - n - length (drop (offset + n - o) s.bytes)) (held more),
  take_all (length s.bytes - (offset + n - o)) (drop (offset + n - o) s.bytes),
  take_none (len - n) (drop (offset + n - o) s.bytes ++ held more),
  read_loop_full (s ∷ more) offset n len,
  read_loop_full more offset (n + (len - n)) len,
  read_loop_last s more offset n len,
  read_loop_next s more offset n len,
  append-nil (take (len - n) (drop (offset + n - o) s.bytes)),
  read_loop_lem (o + length s.bytes) more w offset (n + (length s.bytes - (offset + n - o))) len
      c.2,
  drop_none (offset + (n + (length s.bytes - (offset + n - o))) - (o + length s.bytes)) (held more),
)

-- The first segment that is left reaches the offset.
pub first_reaches :
    (segs : List Segment) (w offset : ℕ)
    → offset ≤ w
    → let left = drop (passed segs offset) segs in
      offset - start_of left w ≤ length (get_or left 0 no_segment).bytes
unfolding passed
first_reaches [] w offset h = omega arith
first_reaches (s ∷ more) w offset h =
    elim (Bool-cases (ltb offset (s.base_offset + length s.bytes))) [
      | inl t ↦ rw t (let p = ltb→lt offset (s.base_offset + length s.bytes) t in omega arith)
      | inr t ↦ rw t (first_reaches more w offset h)
    ]
