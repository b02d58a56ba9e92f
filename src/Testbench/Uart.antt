-- ===== src/Testbench/Uart.antt =====
-- The search of tb/tb_verilator.cpp for the pass token in what the UART transmits.
pub mod Stream
use mints_riscv_cpu.Base.{
  ℕ, ◌-◌, Bool, true, ltb, if◌then◌else◌, List, [], ◌∷◌, ◌++◌, Text, codes, length, drop, same_text,
}

-- `kBusyboxPassToken`.
abbrev pub busybox_pass_token : Text
busybox_pass_token = codes "BUSYBOX-TEST-PASS"

-- `lockstep_uart_window` after one more character: no longer than the token.
unfoldable pub push_char : Text → ℕ → Text
push_char window c =
    let window' = window ++ c ∷ [] in
    let pass_token_length = length busybox_pass_token in
    if ltb pass_token_length (length window')
    then drop (length window' - pass_token_length) window'
    else window'

unfoldable pub is_pass_token : Text → Bool
is_pass_token window = same_text window busybox_pass_token
