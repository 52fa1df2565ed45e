-- ===== src/Tunnel/Transport.antt =====
-- internal/tunnel/transport.go: `Transport`, a byte stream over the messages of a WebSocket. Reading is
-- an `io.Pipe` that a goroutine fills with the messages; the connection here is what was sent on it.
pub mod Chunks
use accel_proxy.Common.{
  Bool, List, Option, [], drop, false, if◌then◌else◌, length, min, nat_beq, none, not, some, suc,
  take, true, zero, ℕ, ◌*◌, ◌++◌, ◌+◌, ◌∷◌,
}
use accel_proxy.Common.Int.{negsuc, pos, ℤ}
use accel_proxy.Wire.{Bytes}

abbrev pub default_frame_size : ℕ
default_frame_size = 32 * 1024

pub record Transport : Type 0 where
  pub frame_size : ℕ
  pub dead : Bool
  -- the binary messages sent, and whether the closing message was, once
  pub sent : List Bytes
  pub close_sent : Bool

unfoldable pub frame_size_of : ℤ → ℕ
frame_size_of (pos n) = if nat_beq n 0 then default_frame_size else n
frame_size_of (negsuc n) = default_frame_size

unfoldable pub new_transport : ℤ → Transport
new_transport frame_size = record {
  frame_size = frame_size_of frame_size;
  dead = false;
  sent = [];
  close_sent = false;
}

pub mark_dead : Transport → Transport
mark_dead t = record t { dead = true }

pub data TransportError : Type 0 where
  transport_is_dead write_failed : TransportError

-- The loop of `Write` from the bytes still to be written, `total` bytes after its start. `writes k`
-- tells whether the message number `k` can be written. Each round writes a byte at least, so as many
-- rounds as bytes are enough.
pub write_loop : ℕ → (ℕ → Bool) → ℕ → Transport → Bytes → ℕ → Transport × ℕ × Option TransportError
write_loop fuel writes k t [] total = (t, total, none)
write_loop zero writes k t (x ∷ xs) total = (t, total, none)
write_loop (suc fuel) writes k t (x ∷ xs) total =
    let n = min t.frame_size (length (x ∷ xs)) in
    let rest =
      write_loop fuel writes (k + 1) (record t { sent = t.sent ++ (take n (x ∷ xs) ∷ []) })
        (drop n (x ∷ xs)) (total + n) in
    if writes k then rest else (mark_dead t, total, some write_failed)

pub write : (ℕ → Bool) → Transport → Bytes → Transport × ℕ × Option TransportError
write writes t p =
    if t.dead then (t, 0, some transport_is_dead) else write_loop (length p) writes 0 t p 0

-- `Close`: the closing message goes out once.
pub close : Transport → Transport
close t = record t { dead = true; close_sent = true }

-- The check at the start of `Read`; what follows reads the pipe.
pub can_read : Transport → Bool
can_read t = not t.dead
