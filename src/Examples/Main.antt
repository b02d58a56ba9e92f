-- ===== src/Examples/Main.antt =====
-- The theorems about the set-up of the testbench and about `main` at concrete inputs.
use mints_riscv_cpu.Base.{
  ℕ, ◌+◌, true, ◌≡◌, inl, ◌^◌, ◌≤◌, ◌≢◌, ◌⊎◌, refl, arith, ltb, same_text, if◌then◌else◌, List, [],
  ◌∷◌, ◌++◌, Option, none, some, Text, codes, digit_char, print_onto, to_hex, to_decimal,
}
use mints_riscv_cpu.Reference.Config.{
  numbered, pmpaddr_names, pmpcfg_names, image_specs, disable_csrs, configure_rtl_pmp_csrs,
  configure_rtl_misa, configure_rtl_mimpid, configure, check_misa, load_images, read_back,
  enter_firmware, construct,
}
use mints_riscv_cpu.Reference.Interrupts.{synchronize_interrupts, replace_interrupts}
use mints_riscv_cpu.Reference.Trap.{non_retiring_event}
use mints_riscv_cpu.Reference.Trap
use mints_riscv_cpu.Reference.Mmio.{seed_mmio_read, reads_mmio}
use mints_riscv_cpu.Reference.Decode.{is_time_csr_instruction}
use mints_riscv_cpu.Reference.Step.{
  step, retire, attempt_step, synchronize_wfi_epc, capture, capture_rd, synchronize_time,
  capture_load, capture_store, capture_csrs,
}
use mints_riscv_cpu.Testbench.Compare.{
  compare_commit, compare_number, compare_destination, compare_memory, add_context,
}
use mints_riscv_cpu.Testbench.Harness.{
  rising_edge, observe_exception, observe_uart, observe_mtimer, observe_seip, seip_event,
  observe_retire, count_retire, compare_retire, retire_request, rearm, judge,
}
use mints_riscv_cpu.Testbench.Loop.{Design, loop, continues, cycles_left, exit_status}
use mints_riscv_cpu.Testbench.Loop
use mints_riscv_cpu.Testbench.Setup.{
  is_space, skip_spaces, digit_of, read_digits, starts_with, starts_with_digit, read_unsigned,
  to_u64, strtoull, plusarg_u64, stop_options, required_environment, optional_environment,
  environment_config, create_whisper_reference, reset_cycles, reset_design,
}
use mints_riscv_cpu.Testbench.Setup.Plusargs.{plusarg_u64-to_hex}
use mints_riscv_cpu.Testbench.Main.{
  Arguments, arguments, exited, running, undefined, positional_args, stoull, cycle_limit, exit_of,
  run_lockstep, main,
}
use mints_riscv_cpu.Testbench.Main.Exits.{Compared, Refused, started_design, main-Compared}
use mints_riscv_cpu.Testbench.Main.Termination.{main-ne-running, main-finished}
use mints_riscv_cpu.Testbench.Environment.{
  Environment, setenv, unsetenv, restore_variable, rom_variable, ram_variable, with_memory_files,
  without_memory_files, dbg_addr,
}
use mints_riscv_cpu.Testbench.Environment.Files.{with_memory_files-environment}
use mints_riscv_cpu.Examples.Toy.{toy}
use mints_riscv_cpu.Examples.Testbench.{retires}

-- A design that retires the entry's instruction on its first edge after the reset and finishes.
abbrev resettable : Design
resettable = record {
  State = ℕ;
  eval = λ clk rst n. if rst then n + 1 else 0;
  ports = λ n. retires 0x80000000;
  finished = λ n. ltb 1 n;
}

abbrev environment : Text → Option Text
environment name =
    if same_text name (codes "WHISPER_OPENSBI_ELF") then some (codes "fw_jump.elf") else none

abbrev three_cycles : List Text
three_cycles = codes "rom.hex" ∷ codes "ram.hex" ∷ codes "3" ∷ []

plusarg_u64-to_hex_example :
    plusarg_u64
      (codes "rom.hex" ∷ codes "+LOCKSTEP_STOP_ORDER=0x1f4" ∷ codes "+LOCKSTEP_STOP_ORDER=7" ∷ [])
      (codes "LOCKSTEP_STOP_ORDER")
      0
    ≡ (true, 500)
unfolding to_hex print_onto digit_char starts_with
plusarg_u64-to_hex_example =
    plusarg_u64-to_hex (codes "LOCKSTEP_STOP_ORDER") (codes "rom.hex" ∷ [])
      (codes "+LOCKSTEP_STOP_ORDER=7" ∷ []) 500 0 (omega arith) refl

abbrev root_path : Text → Option Text
root_path path = some (codes "/" ++ path)

-- The design reads nothing of its environment.
abbrev create : Environment → ℕ → ℕ
create env dbg = dbg

abbrev three_arguments : Arguments
three_arguments = record {
  rom_file_path = codes "/rom.hex";
  ram_file_path = codes "/ram.hex";
  cycles = 3;
}

arguments_given : arguments root_path (positional_args three_cycles) ≡ some three_arguments
unfolding arguments cycle_limit positional_args stoull skip_spaces is_space digit_of read_digits
    starts_with starts_with_digit
arguments_given = refl

main-ne-running_example :
    ((main toy resettable true root_path create environment three_cycles 7).0 ≢ running)
    × ((main toy resettable true root_path create environment three_cycles 7).0 ≢ undefined)
main-ne-running_example =
    main-ne-running toy resettable true root_path create environment three_cycles three_arguments
      arguments_given (omega arith) (inl (omega arith))

main-finished_example :
    ((main toy resettable true root_path create environment three_cycles 2).0 ≢ running)
    × (((main toy resettable true root_path create environment three_cycles 2).0 ≢ undefined)
        ⊎ (2 ^ 63 ≤ 1))
unfolding reset_design reset_cycles
main-finished_example =
    main-finished toy resettable true root_path create environment three_cycles three_arguments
      arguments_given 1 refl

main_passes : (main toy resettable true root_path create environment three_cycles 7).0 ≡ exited 0
unfolding main arguments dbg_addr with_memory_files without_memory_files setenv unsetenv
    restore_variable run_lockstep exit_of exit_status cycle_limit positional_args stoull skip_spaces
    is_space digit_of read_digits starts_with starts_with_digit read_unsigned to_u64 strtoull
    plusarg_u64 stop_options required_environment optional_environment environment_config
    create_whisper_reference reset_cycles reset_design construct configure configure_rtl_misa
    configure_rtl_mimpid configure_rtl_pmp_csrs disable_csrs numbered pmpaddr_names pmpcfg_names
    to_decimal print_onto digit_char check_misa load_images image_specs enter_firmware read_back
    loop continues cycles_left Loop.observe rising_edge observe_exception observe_uart
    observe_mtimer observe_seip seip_event observe_retire count_retire compare_retire retire_request
    rearm judge step retire attempt_step synchronize_interrupts replace_interrupts seed_mmio_read
    reads_mmio synchronize_wfi_epc Trap.observe non_retiring_event capture capture_rd
    synchronize_time capture_load capture_store capture_csrs is_time_csr_instruction compare_commit
    compare_number compare_destination compare_memory add_context same_text
main_passes = refl

-- The run of this design is one that was compared.
abbrev passed : ℕ
passed = 0

main-Compared_example :
    ((main toy resettable true root_path create environment three_cycles 7).1 ≡ environment)
    × ((Refused toy resettable true environment three_cycles root_path × (passed ≡ 1))
        ⊎ ((a : Arguments) × (arguments root_path (positional_args three_cycles) ≡ some a)
            × Compared toy resettable true environment three_cycles a.cycles
                (started_design toy resettable true root_path create environment three_cycles a)
                passed))
main-Compared_example =
    main-Compared toy resettable true root_path create environment three_cycles 7 passed main_passes

with_memory_files-environment_example :
    let files = with_memory_files environment (codes "/rom.hex") (codes "/ram.hex") in
    (files rom_variable ≡ some (codes "/rom.hex"))
    × (files ram_variable ≡ some (codes "/ram.hex"))
    × (files (codes "HOME") ≡ environment (codes "HOME"))
    × (without_memory_files environment files ≡ environment)
unfolding same_text
with_memory_files-environment_example =
    with_memory_files-environment environment (codes "/rom.hex") (codes "/ram.hex") (codes "HOME")
      refl refl
