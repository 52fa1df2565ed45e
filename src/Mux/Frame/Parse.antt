-- ===== src/Mux/Frame/Parse.antt =====
-- What `ReadFrame` accepts.
use accel_proxy.Wire.Streams.{read_full_sound}
use accel_proxy.Wire.Words.{put_uint32-word, word}
use accel_proxy.Common.{
  All, All-append, [], ap, append_assoc, arith, drop, get_or, length, length-take, refl, subst, sym,
  take, take-append-drop, ℕ, ◌%◌, ◌++◌, ◌<◌, ◌^◌, ◌∙◌, ◌∷◌, ◌≡◌, ◌≤◌,
}
use accel_proxy.Wire.{Bytes, IsByte, ok, read_full, uint32}
use accel_proxy.Mux.Frame.{Frame, IsFrame, header, max_payload_size, read_frame, read_payload}

-- The frame that a header of 13 bytes and a payload make.
abbrev frame_of : Bytes → Bytes → Frame
frame_of hdr payload = record {
  stream_id = uint32 hdr 0;
  frame_type = get_or hdr 4 0;
  flags = get_or hdr 5 0;
  payload = payload;
}

-- A header is the ten bytes that `WriteTo` would put there, and three bytes more.
header-frame_of :
    (hdr payload : Bytes)
    → length hdr ≡ 13
    → All IsByte hdr
    → length payload ≡ uint32 hdr 6
    → (hdr ≡ take 10 (header (frame_of hdr payload)) ++ drop 10 hdr)
      × (length (drop 10 hdr) ≡ 3)
      × (uint32 hdr 0 < 2 ^ 32)
      × IsByte (get_or hdr 4 0)
      × IsByte (get_or hdr 5 0)
unfolding header uint32
header-frame_of (a ∷ b ∷ c ∷ d ∷ t ∷ g ∷ w ∷ x ∷ y ∷ z ∷ i ∷ j ∷ k ∷ []) p n v l =
    let e0 = put_uint32-word a b c d v.0 v.1.0 v.1.1.0 v.1.1.1.0 in
    let s = v.1.1.1.1 in
    let u = s.1.1 in
    let e6 = put_uint32-word w x y z u.0 u.1.0 u.1.1.0 u.1.1.1.0 in
    let m : length p % 2 ^ 32 ≡ word w x y z = omega arith in
    let mt : t % 256 ≡ t = omega arith in
    let mg : g % 256 ≡ g = omega arith in (rw (m, e0, e6, mt, mg), refl, omega arith, s.0, s.1.0)
header-frame_of _ p n v l = absurd (omega arith)

read_payload_sound :
    (n : ℕ) (bs xs ys : Bytes) → read_payload n bs ≡ ok (xs, ys) → (bs ≡ xs ++ ys) × (length xs ≡ n)
unfolding read_payload
read_payload_sound n bs xs ys e = ground (arith, read_full_sound n bs xs ys)

-- The parts of what was read.
read_frame_parts :
    (bs rest : Bytes) (f : Frame)
    → read_frame bs ≡ ok (f, rest)
    → let hdr = take 13 bs in
      (bs ≡ hdr ++ (f.payload ++ rest))
      × (length hdr ≡ 13)
      × (f ≡ frame_of hdr f.payload)
      × (length f.payload ≡ uint32 hdr 6)
      × (length f.payload ≤ max_payload_size)
unfolding read_frame read_full
read_frame_parts bs rest f e = ground (
  arith,
  take-append-drop 13 bs,
  length-take 13 bs,
  read_payload_sound (uint32 (take 13 bs) 6) (drop 13 bs) f.payload rest,
)

-- `ReadFrame` accepts no other bytes than those of a frame within the limit: the ten bytes of
-- header that `WriteTo` puts for it, three reserved bytes, which may be any, and its payload.
pub read_frame_sound :
    (bs rest : Bytes) (f : Frame)
    → All IsByte bs
    → read_frame bs ≡ ok (f, rest)
    → IsFrame f
      × (length f.payload ≤ max_payload_size)
      × ((reserved : Bytes) × (length reserved ≡ 3)
          × (bs ≡ take 10 (header f) ++ (reserved ++ (f.payload ++ rest))))
read_frame_sound bs rest f v e =
    let (b, n, g, l, m) = read_frame_parts bs rest f e in
    let u = (All-append IsByte (take 13 bs) (f.payload ++ rest) (subst (All IsByte) b v)) in
    let (h, r, s, t, q) = header-frame_of (take 13 bs) f.payload n u.0 l in
    (
      record {
        stream_id_fits = rw g s;
        frame_type_fits = rw g t;
        flags_fits = rw g q;
        payload_bytes = (All-append IsByte f.payload rest u.1).0;
      },
      m,
      (
        drop 10 (take 13 bs),
        r,
        b
            ∙ ap (λ t. t ++ (f.payload ++ rest))
                (h ∙ ap (λ k. take 10 (header k) ++ drop 10 (take 13 bs)) (sym g))
            ∙ append_assoc (take 10 (header f)) (drop 10 (take 13 bs)) (f.payload ++ rest),
      ),
    )
