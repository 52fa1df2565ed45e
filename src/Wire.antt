-- ===== src/Wire.antt =====
-- What the frame codecs take from Go's standard library: `encoding/binary` (big-endian words),
-- `io.ReadFull` on a reader that holds the bytes still to come, and an `io.Writer` that takes
-- bytes until it has no more room.
pub mod Words
pub mod Streams
use accel_proxy.Common.{
  List, Option, [], drop, get_or, if◌then◌else◌, length, ltb, nat_beq, none, some, take, ℕ, ◌%◌,
  ◌*◌, ◌++◌, ◌+◌, ◌-◌, ◌/◌, ◌<◌, ◌^◌, ◌∷◌,
}

abbrev pub Bytes : Type 0
Bytes = List ℕ

abbrev pub IsByte : ℕ → Type 0
IsByte b = b < 256

-- binary.BigEndian.PutUint32
unfoldable pub put_uint32 : ℕ → Bytes
put_uint32 v = v / 2 ^ 24 % 256 ∷ v / 2 ^ 16 % 256 ∷ v / 2 ^ 8 % 256 ∷ v % 256 ∷ []

-- binary.BigEndian.Uint32 of the four bytes from `i` on
unfoldable pub uint32 : Bytes → ℕ → ℕ
uint32 b i =
    get_or b i 0 * 2 ^ 24
    + get_or b (i + 1) 0 * 2 ^ 16
    + get_or b (i + 2) 0 * 2 ^ 8
    + get_or b (i + 3) 0

pub data Error : Type 0 where
  eof unexpected_eof short_write : Error
  payload_too_large : ℕ → Error

pub data Result {ℓ} (A : Type ℓ) : Type ℓ where
  ok : A → Result A
  err : Error → Result A

-- io.ReadFull: the bytes read and those left.
unfoldable pub read_full : ℕ → Bytes → Result (Bytes × Bytes)
read_full n bs =
    if ltb (length bs) n
    then (if nat_beq (length bs) 0 then err eof else err unexpected_eof)
    else ok (take n bs, drop n bs)

infixl 5 ◌>>=◌
abbrev pub ◌>>=◌ {ℓ κ} : {S : Type ℓ} {T : Type κ} → Result S → (S → Result T) → Result T
err x >>= next = err x
ok s >>= next = next s

-- An `io.Writer` with what it has taken and the room that it has left.
pub record Writer : Type 0 where
  pub out : Bytes
  pub room : ℕ

-- w.Write(b): a short write comes with an error.
pub write : Writer → Bytes → Writer × Option Error
write w b =
    if ltb w.room (length b)
    then (record w { out = w.out ++ take w.room b; room = 0 }, some short_write)
    else (record w { out = w.out ++ b; room = w.room - length b }, none)
