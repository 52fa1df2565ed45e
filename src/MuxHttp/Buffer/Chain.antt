-- ===== src/MuxHttp/Buffer/Chain.antt =====
-- The segments of a buffer: contiguous from the base to the write offset.
use accel_proxy.Common.{
  List, [], arith, false, if◌then◌else◌, length, length-append, ltb, suc, true, zero, ℕ, ◌++◌, ◌+◌,
  ◌<◌, ◌∷◌, ◌≡◌, ◌≤◌,
}
use accel_proxy.MuxHttp.Buffer.{Segment, ends_after, search, segment_size}
use accel_proxy.MuxHttp.Buffer.Search.{search_lem}
use accel_proxy.Wire.{Bytes}

unfoldable pub Chain : ℕ → List Segment → ℕ → Type 0
Chain o [] w = o ≡ w
Chain o (s ∷ more) w =
    (s.base_offset ≡ o) × (length s.bytes ≤ segment_size) × Chain (o + length s.bytes) more w

-- The bytes that segments hold.
unfoldable pub held : List Segment → Bytes
held [] = []
held (s ∷ more) = s.bytes ++ held more

pub Chain-size : (o : ℕ) (segs : List Segment) (w : ℕ) → Chain o segs w → o + length (held segs) ≡ w
unfolding Chain held
Chain-size o [] w c = omega (arith, c)
Chain-size o (s ∷ more) w c =
    omega
      (arith, c.0, length-append s.bytes (held more), Chain-size (o + length s.bytes) more w c.2)

-- How many segments end at or before an offset.
unfoldable pub passed : List Segment → ℕ → ℕ
passed [] offset = 0
passed (s ∷ more) offset =
    let rest = passed more offset in
    if ltb offset (s.base_offset + length s.bytes) then 0 else suc rest

passed-le : (segs : List Segment) (offset : ℕ) → passed segs offset ≤ length segs
unfolding passed
passed-le [] offset = omega arith
passed-le (s ∷ more) offset = ground (arith, passed-le more offset)

ends_after-below :
    (segs : List Segment) (offset m : ℕ) → m < passed segs offset → ends_after segs offset m ≡ false
unfolding passed ends_after
ends_after-below [] offset m h = absurd (omega arith)
ends_after-below (s ∷ more) offset zero h = ground arith
ends_after-below (s ∷ more) offset (suc m) h = ground (arith, ends_after-below more offset m)

ends_after-Chain :
    (o : ℕ) (segs : List Segment) (w offset m : ℕ)
    → Chain o segs w
    → offset < o
    → m < length segs
    → ends_after segs offset m ≡ true
unfolding Chain ends_after
ends_after-Chain o [] w offset m c p h = absurd (omega arith)
ends_after-Chain o (s ∷ more) w offset zero c p h = ground (arith, c)
ends_after-Chain o (s ∷ more) w offset (suc m) c p h =
    ends_after-Chain (o + length s.bytes) more w offset m c.2 (omega arith) (omega arith)

ends_after-above :
    (o : ℕ) (segs : List Segment) (w offset m : ℕ)
    → Chain o segs w
    → passed segs offset ≤ m
    → m < length segs
    → ends_after segs offset m ≡ true
unfolding Chain passed ends_after
ends_after-above o [] w offset m c p h = absurd (omega arith)
ends_after-above o (s ∷ more) w offset zero c p h = ground (arith, c)
ends_after-above o (s ∷ more) w offset (suc m) c p h = ground (
  arith,
  c,
  ends_after-above (o + length s.bytes) more w offset m c.2,
  ends_after-Chain (o + length s.bytes) more w offset m c.2,
)

pub search-passed :
    (o : ℕ) (segs : List Segment) (w offset : ℕ)
    → Chain o segs w
    → search (length segs) (ends_after segs offset) ≡ passed segs offset
search-passed o segs w offset c =
    search_lem (length segs) (passed segs offset) (ends_after segs offset) (passed-le segs offset)
      (ends_after-below segs offset) (λ m p h. ends_after-above o segs w offset m c p h)
