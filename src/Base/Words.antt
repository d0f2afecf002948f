-- ===== src/Base/Words.antt =====
-- Machine words: `size_t` and `uintptr_t` are 64 bits wide.
use Prim.Native.Nat.{ℕ, ◌+◌, ◌-◌, ◌%◌}

abbrev pub word_mod : ℕ
word_mod = 18446744073709551616

abbrev pub u8 : ℕ → ℕ
u8 n = n % 256

abbrev pub u64 : ℕ → ℕ
u64 n = n % word_mod

-- Unsigned subtraction wraps.
abbrev pub sub64 : ℕ → ℕ → ℕ
sub64 a b = (a + word_mod - b) % word_mod
