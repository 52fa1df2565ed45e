-- ===== src/MuxHttp/Buffer/Search.antt =====
-- sort.Search finds the first place from which on its test holds.
use accel_proxy.Common.{Bool, arith, false, suc, true, zero, ℕ, ◌+◌, ◌-◌, ◌/◌, ◌<◌, ◌≡◌, ◌≤◌}
use accel_proxy.MuxHttp.Buffer.{search, search_loop}

search_loop_lem :
    (fuel : ℕ) (f : ℕ → Bool) (i j k n : ℕ)
    → ((m : ℕ) → m < k → f m ≡ false)
    → ((m : ℕ) → k ≤ m → m < n → f m ≡ true)
    → i ≤ k
    → k ≤ j
    → j ≤ n
    → j - i ≤ fuel
    → search_loop fuel f i j ≡ k
unfolding search_loop
search_loop_lem zero f i j k n lo hi p q r s = omega arith
search_loop_lem (suc fuel) f i j k n lo hi p q r s = ground (
  arith,
  lo ((i + j) / 2),
  hi ((i + j) / 2),
  search_loop_lem fuel f i ((i + j) / 2) k n lo hi,
  search_loop_lem fuel f ((i + j) / 2 + 1) j k n lo hi,
)

-- Where a test is false below a place of a range and true from there on, `sort.Search` over the
-- range finds that place, in no more rounds than the range is long.
pub search_lem :
    (n k : ℕ) (f : ℕ → Bool)
    → k ≤ n
    → ((m : ℕ) → m < k → f m ≡ false)
    → ((m : ℕ) → k ≤ m → m < n → f m ≡ true)
    → search n f ≡ k
unfolding search
search_lem n k f h lo hi =
    search_loop_lem n f 0 n k n lo hi (omega arith) h (omega arith) (omega arith)
