-- ===== src/Testbench/Host/Input.antt =====
-- What the RTL makes of `get_input_dpic`, by src/uart_ns16550.sv.
use mints_riscv_cpu.Base.{
  ℕ, ◌/◌, ◌%◌, ◌^◌, ◌<◌, ◌≡◌, refl, arith, true, ◌&&◌, ◌==◌, some, none, bit_or, Option,
  Option-cases, inl, inr, if◌then◌else◌, shl64, passes_below, passes_below-lt,
}
use mints_riscv_cpu.Testbench.Host.{System, get_input_dpic}

-- The two fields that src/uart_ns16550.sv reads, for each byte.
input_table :
    passes_below 256 (λ c.
      bit_or c (shl64 0x01010 44) / 2 ^ 44 == 0x01010 && bit_or c (shl64 0x01010 44) % 2 ^ 8 == c)
    ≡ true
unfolding passes_below
input_table = refl

input-fields :
    (c : ℕ)
    → c < 256
    → (bit_or c (shl64 0x01010 44) / 2 ^ 44 ≡ 0x01010) × (bit_or c (shl64 0x01010 44) % 2 ^ 8 ≡ c)
input-fields c byte =
    let fields =
      passes_below-lt 256
        (λ k.
          bit_or k (shl64 0x01010 44) / 2 ^ 44 == 0x01010
          && bit_or k (shl64 0x01010 44) % 2 ^ 8 == k)
        c input_table byte in
    (ground (arith, fields), ground (arith, fields))

-- What src/uart_ns16550.sv receives by such a word: its upper 20 bits tell whether there is a byte,
-- and its lower 8 which.
unfoldable pub received : ℕ → Option ℕ
received word = if word / 2 ^ 44 == 0x01010 then some (word % 2 ^ 8) else none

-- The UART of the RTL receives by `get_input_dpic` exactly what was read from standard input, the
-- byte 0 and the want of a byte included, if what is read is a byte.
pub received-get_input_dpic :
    (y : System) (s : y.State)
    → ((c : ℕ) → (y.read s).0 ≡ some c → c < 256)
    → received (get_input_dpic y s).0 ≡ (y.read s).0
unfolding get_input_dpic received
received-get_input_dpic y s bytes = elim (Option-cases (y.read s).0) [
  | inl e ↦ rw (get_input_dpic, e) refl
  | inr (c, e) ↦ rw (get_input_dpic, e) (ground (arith, input-fields c (bytes c e)))
]
