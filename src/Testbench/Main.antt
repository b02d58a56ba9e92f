-- ===== src/Testbench/Main.antt =====
-- `main` of tb/tb_verilator.cpp from its arguments to its exit status, compiled with
-- SVCPU_WHISPER_LOCKSTEP and without TRACE.
pub mod Exits
pub mod Termination
use mints_riscv_cpu.Base.{
  ℕ, zero, suc, ◌-◌, ◌%◌, ◌^◌, Bool, true, false, not, ◌||◌, leb, if◌then◌else◌, List, [], ◌∷◌,
  drop, Option, none, some, Text, codes,
}
use mints_riscv_cpu.Reference.Result.{Error, ok, fail}
use mints_riscv_cpu.Reference.Hart.{Hart}
use mints_riscv_cpu.Testbench.Harness.{initial}
use mints_riscv_cpu.Testbench.Loop.{
  Design, Outcome, unfinished, aborted, overflowed, stopped, loop, exit_status,
}
use mints_riscv_cpu.Testbench.Environment.{
  Environment, with_memory_files, without_memory_files, dbg_addr,
}
use mints_riscv_cpu.Testbench.Setup.{
  skip_spaces, starts_with, starts_with_digit, read_digits, create_whisper_reference, stop_options,
  reset_design,
}

-- `positional_args`: those that do not start with a plus sign.
unfoldable pub positional_args : List Text → List Text
positional_args [] = []
positional_args (arg ∷ args) =
    let rest = positional_args args in if starts_with (codes "+") arg then rest else arg ∷ rest

-- std::stoull: none where it throws, since there is no number in front or it is too large.
unfoldable pub stoull : Text → Option ℕ
stoull text =
    let unspaced = skip_spaces text in
    let negative = starts_with (codes "-") unspaced in
    let body = if negative || starts_with (codes "+") unspaced then drop 1 unspaced else unspaced in
    let n = (read_digits 10 0 body).0 in
    if not (starts_with_digit 10 body) || leb (2 ^ 64) n
    then none
    else some (if negative then (2 ^ 64 - n) % 2 ^ 64 else n)

-- What `main` takes from its arguments.
pub record Arguments : Type 0 where
  pub rom_file_path : Text
  pub ram_file_path : Text
  pub cycles : ℕ

-- `cycles`, from what stands behind the two file names.
unfoldable pub cycle_limit : List Text → Option ℕ
cycle_limit [] = some 0
cycle_limit (count ∷ rest) = stoull count

-- The arguments, or none where `main` returns for want of a file name, an absolute path or a number.
-- `absolute` is what std::filesystem makes of a path; it gives none where that throws.
unfoldable pub arguments : (Text → Option Text) → List Text → Option Arguments
arguments absolute [] = none
arguments absolute (rom ∷ []) = none
arguments absolute (rom ∷ ram ∷ more) = elim (absolute rom) [
  | none ↦ none
  | some rom_file_path ↦ elim (absolute ram) [
    | none ↦ none
    | some ram_file_path ↦ elim (cycle_limit more) [
      | none ↦ none
      | some cycles ↦
          some (record {
            rom_file_path = rom_file_path;
            ram_file_path = ram_file_path;
            cycles = cycles;
          })
    ]
  ]
]

-- How the program ends: with a status, by an exception that nothing catches, without a meaning since
-- the loop counts past a `long long`, or out of the model's fuel.
pub data Exit : Type 0 where
  exited : ℕ → Exit
  terminated : Error → Exit
  undefined : Exit
  running : Exit

-- What follows the loop.
unfoldable pub exit_of : (g : Design) {S : Type 0} → Bool → Outcome S g.State → Exit
exit_of g test_mode unfinished = running
exit_of g test_mode (aborted e) = terminated e
exit_of g test_mode overflowed = undefined
exit_of g test_mode (stopped l d) = exited (exit_status test_mode l (g.ports d))

module _ (h : Hart) (g : Design) (test_mode : Bool) where
  -- The rest of `main` after the reset of the design.
  unfoldable pub run_lockstep : Environment → List Text → ℕ → ℕ → g.State → Exit
  run_lockstep env args cycles fuel d = elim (create_whisper_reference h env) [
    | fail e ↦ exited 1
    | ok w ↦ exit_of g test_mode (loop h g (stop_options args) cycles fuel 0 false d (initial w))
  ]

  -- `main`: how it ends, and the environment that is left. `create` makes the design from the
  -- environment that it reads and from MMAP_DBG_ADDR, and `fuel` is for the loop.
  unfoldable pub main :
      (Text → Option Text)
      → (Environment → ℕ → g.State)
      → Environment
      → List Text
      → ℕ
      → Exit × Environment
  main absolute create env args fuel = elim (arguments absolute (positional_args args)) [
    | none ↦ (exited 1, env)
    | some a ↦
        let files = with_memory_files env a.rom_file_path a.ram_file_path in
        let d = reset_design g (create files (dbg_addr files)) in
        let env' = without_memory_files env files in (run_lockstep env' args a.cycles fuel d, env')
  ]
