-- ===== src/Wire/Streams.antt =====
-- Reading what was written.
use accel_proxy.Common.{
  Bool, arith, drop-append_self, false, if◌then◌else◌, length, length-append, length-take, none,
  refl, take-append-drop, take-append_self, true, ℕ, ◌++◌, ◌-◌, ◌≡◌, ◌≤◌,
}
use accel_proxy.Wire.{Bytes, Error, Result, Writer, err, ok, read_full, write, ◌>>=◌}

pub read_full-append :
    (xs ys : Bytes) (n : ℕ) → n ≡ length xs → read_full n (xs ++ ys) ≡ ok (xs, ys)
unfolding read_full
read_full-append xs ys n e =
    ground (arith, length-append xs ys, take-append_self xs ys n e, drop-append_self xs ys n e)

-- A write that has room.
pub write_fits :
    (w : Writer) (b : Bytes)
    → length b ≤ w.room
    → write w b ≡ (record { out = w.out ++ b; room = w.room - length b }, none)
unfolding write
write_fits w b h = ground arith

-- What `read_full` hands over, when it succeeds.
pub read_full_sound :
    (n : ℕ) (bs xs ys : Bytes) → read_full n bs ≡ ok (xs, ys) → (bs ≡ xs ++ ys) × (length xs ≡ n)
unfolding read_full
read_full_sound n bs xs ys e = ground (arith, take-append-drop n bs, length-take n bs)

-- Inversion of a successful chain and of a passed test.
module _ {ℓ κ} {A : Type ℓ} {B : Type κ} where
  pub >>=-eq-ok :
      (r : Result A) (next : A → Result B) {out : B}
      → (r >>= next) ≡ ok out
      → (s : A) × (r ≡ ok s) × (next s ≡ ok out)
  >>=-eq-ok (err x) next h = cc
  >>=-eq-ok (ok s) next h = (s, refl, h)

pub if-eq-ok {ℓ} :
    {A : Type ℓ} (b : Bool) (x : Error) (m : Result A) {a : A}
    → (if b then err x else m) ≡ ok a
    → (b ≡ false) × (m ≡ ok a)
if-eq-ok true x m h = cc
if-eq-ok false x m h = (refl, h)
