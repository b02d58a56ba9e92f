-- ===== src/Examples/Platform.antt =====
-- The theorems about the payload at concrete inputs.
use mints_riscv_cpu.Base.{
  ℕ, ◌+◌, ◌≡◌, refl, arith, [], ◌∷◌, ◌++◌, Text, length, read_hex, codes, digit_char,
}
use mints_riscv_cpu.Platform.Payload.{
  ecall, store, wfi, Firmware, Machine, debug_mmio_base, base_spec_call, sbi_call, puthex64,
  payload_main,
}
use mints_riscv_cpu.Platform.Payload.Console.{
  prints, replicate, report_text, payload_main-actions, puthex64-read_hex,
}

-- A firmware that counts its calls and answers each with version 2.0 of the specification.
abbrev counting : Firmware
counting = record { State = ℕ; handle = λ n call. (record { error = 0; value = 0x2000000 }, n + 1) }

abbrev booted : Machine ℕ
booted = record { firmware = 0; actions = [] }

payload_main-actions_example :
    (payload_main counting 2 0 0x87f00000 booted).actions
    ≡ booted.actions
      ++ ((ecall base_spec_call ∷ [])
          ++ prints (report_text 0 0x87f00000 (sbi_call counting base_spec_call booted).0)
          ++ (store debug_mmio_base 1 ∷ [])
          ++ replicate 2 wfi)
payload_main-actions_example = payload_main-actions counting booted 2 0 0x87f00000

-- The report of that run.
counting_report :
    report_text 0 0x87f00000 (record { error = 0; value = 0x2000000 })
    ≡ codes
        "\nOpenSBI S-mode payload reached\nhartid=0x0000000000000000 dtb=0x0000000087f00000\nSBI base spec=0x0000000002000000 error=0x0000000000000000\n"
unfolding digit_char
counting_report = refl

puthex64-read_hex_example :
    (text : Text) × ((puthex64 counting 0x87f00000 booted).actions ≡ booted.actions ++ prints text)
    × (length text ≡ 16)
    × (read_hex 0 text ≡ 0x87f00000)
puthex64-read_hex_example = puthex64-read_hex counting 0x87f00000 booted (omega arith)
