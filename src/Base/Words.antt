-- ===== src/Base/Words.antt =====
-- Machine words as native numbers: the casts, the shifts and the masks of the fixed widths.
use Prim.Native.Nat.{ℕ, ◌-◌, ◌*◌, ◌/◌, ◌%◌, ◌^◌}

abbrev pub u8 : ℕ → ℕ
u8 n = n % 2 ^ 8

abbrev pub u32 : ℕ → ℕ
u32 n = n % 2 ^ 32

abbrev pub u64 : ℕ → ℕ
u64 n = n % 2 ^ 64

-- ~x on std::uint64_t, for x below 2 ^ 64.
abbrev pub not64 : ℕ → ℕ
not64 x = 2 ^ 64 - 1 - x

infixl 75 ◌>>>◌
abbrev pub ◌>>>◌ : ℕ → ℕ → ℕ
x >>> k = x / 2 ^ k

-- x << k on std::uint64_t.
abbrev pub shl64 : ℕ → ℕ → ℕ
shl64 x k = u64 (x * 2 ^ k)

-- Bit `k` of a number, as 0 or 1.
abbrev pub bit_at : ℕ → ℕ → ℕ
bit_at k x = x / 2 ^ k % 2
