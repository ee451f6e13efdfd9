-- ===== src/Base/Words.antt =====
-- `u64`: the wrap-around of `+ 1`, and durations in nanoseconds.
use Prim.Native.Nat.{ℕ, ◌*◌, ◌%◌}

abbrev pub u64_max : ℕ
u64_max = 18446744073709551615

abbrev u64_mod : ℕ
u64_mod = 18446744073709551616

abbrev pub wrap64 : ℕ → ℕ
wrap64 n = n % u64_mod

abbrev pub nanos : ℕ
nanos = 1000000000

-- `Duration::from_secs`.
abbrev pub from_secs : ℕ → ℕ
from_secs s = s * nanos
