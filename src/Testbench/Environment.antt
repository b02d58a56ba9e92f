-- ===== src/Testbench/Environment.antt =====
-- The environment of the process, as `main` of tb/tb_verilator.cpp changes it: the paths of the
-- memory files are in it while the design is created and reset.
pub mod Files
use mints_riscv_cpu.Base.{
  ℕ, Bool, true, false, if◌then◌else◌, Option, none, some, Text, codes, same_text,
}
use mints_riscv_cpu.Testbench.Setup.{strtoull}

abbrev pub Environment : Type 0
Environment = Text → Option Text

-- `setenv` with overwriting.
unfoldable pub setenv : Environment → Text → Text → Environment
setenv env name value key = if same_text key name then some value else env key

unfoldable pub unsetenv : Environment → Text → Environment
unsetenv env name key = if same_text key name then none else env key

-- A variable as it was before, or gone if it was not there.
unfoldable pub restore_variable : Environment → Text → Option Text → Environment
restore_variable env name none = unsetenv env name
restore_variable env name (some value) = setenv env name value

abbrev pub rom_variable : Text
rom_variable = codes "ROM_FILE_PATH"

abbrev pub ram_variable : Text
ram_variable = codes "RAM_FILE_PATH"

-- The environment that the design reads.
unfoldable pub with_memory_files : Environment → Text → Text → Environment
with_memory_files env rom ram = setenv (setenv env rom_variable rom) ram_variable ram

-- The environment after the reset, from the one that the design has read and the one before.
unfoldable pub without_memory_files : Environment → Environment → Environment
without_memory_files old env =
    restore_variable (restore_variable env rom_variable (old rom_variable)) ram_variable
      (old ram_variable)

-- `dbg_addr`.
unfoldable pub dbg_addr : Environment → ℕ
dbg_addr env = elim (env (codes "DBG_ADDR")) [ none ↦ 0 | some text ↦ (strtoull text).0 ]
