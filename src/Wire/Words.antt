-- ===== src/Wire/Words.antt =====
-- Big-endian words.
use accel_proxy.Common.{[], arith, ℕ, ◌*◌, ◌++◌, ◌+◌, ◌<◌, ◌^◌, ◌∷◌, ◌≡◌}
use accel_proxy.Wire.{Bytes, IsByte, put_uint32, uint32}

-- The word that four bytes make.
abbrev pub word : ℕ → ℕ → ℕ → ℕ → ℕ
word a b c d = a * 2 ^ 24 + b * 2 ^ 16 + c * 2 ^ 8 + d

pub uint32-put_uint32 : (v : ℕ) (rest : Bytes) → v < 2 ^ 32 → uint32 (put_uint32 v ++ rest) 0 ≡ v
unfolding uint32 put_uint32
uint32-put_uint32 v rest h = omega arith

pub put_uint32-word :
    (a b c d : ℕ)
    → IsByte a
    → IsByte b
    → IsByte c
    → IsByte d
    → put_uint32 (word a b c d) ≡ a ∷ b ∷ c ∷ d ∷ []
unfolding put_uint32
put_uint32-word a b c d ha hb hc hd = ground arith
