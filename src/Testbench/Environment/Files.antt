-- ===== src/Testbench/Environment/Files.antt =====
-- What the environment holds while the design is created, and afterwards.
use mathlib.Core.Path.{fun_ext}
use mints_riscv_cpu.Base.{
  ◌≡◌, refl, ap, arith, false, if◌then◌else◌, Option, none, some, Bool-cases, inl, inr, Text,
  same_text, same_text→eq,
}
use mints_riscv_cpu.Testbench.Environment.{
  Environment, setenv, unsetenv, restore_variable, rom_variable, ram_variable, with_memory_files,
  without_memory_files,
}

restore_variable-key :
    (env : Environment) (name : Text) (old : Option Text) (key : Text)
    → restore_variable env name old key ≡ (if same_text key name then old else env key)
unfolding restore_variable setenv unsetenv
restore_variable-key env name none key = refl
restore_variable-key env name (some value) key = refl

setenv-key :
    (env : Environment) (name value key : Text)
    → setenv env name value key ≡ (if same_text key name then some value else env key)
unfolding setenv
setenv-key env name value key = refl

-- Two variables that are set and restored.
restored-key :
    (env : Environment) (a b va vb key : Text)
    → restore_variable (restore_variable (setenv (setenv env a va) b vb) a (env a)) b (env b) key
      ≡ env key
restored-key env a b va vb key =
    let set = setenv (setenv env a va) b vb in
    let whole = restore_variable-key (restore_variable set a (env a)) b (env b) key in
    let inner = restore_variable-key set a (env a) key in
    elim (Bool-cases (same_text key b)) [
      | inl is_b ↦ ground (arith, whole, is_b, ap env (same_text→eq key b is_b))
      | inr not_b ↦ elim (Bool-cases (same_text key a)) [
        | inl is_a ↦ ground (arith, whole, inner, not_b, is_a, ap env (same_text→eq key a is_a))
        | inr not_a ↦ ground (
          arith,
          whole,
          inner,
          not_b,
          not_a,
          setenv-key (setenv env a va) b vb key,
          setenv-key env a va key,
        )
      ]
    ]

pub without-with_memory_files :
    (env : Environment) (rom ram : Text)
    → without_memory_files env (with_memory_files env rom ram) ≡ env
unfolding with_memory_files without_memory_files
without-with_memory_files env rom ram =
    fun_ext λ key. restored-key env rom_variable ram_variable rom ram key

-- The design finds the paths of its memory files in the environment and any other variable `key` as
-- it was, and after the reset the whole environment is as it was, variables that were not there
-- included.
pub with_memory_files-environment :
    (env : Environment) (rom ram key : Text)
    → same_text key rom_variable ≡ false
    → same_text key ram_variable ≡ false
    → let files = with_memory_files env rom ram in
      (files rom_variable ≡ some rom)
      × (files ram_variable ≡ some ram)
      × (files key ≡ env key)
      × (without_memory_files env files ≡ env)
unfolding with_memory_files without_memory_files setenv same_text
with_memory_files-environment env rom ram key not_rom not_ram =
    (refl, refl, ground (arith, not_rom, not_ram), without-with_memory_files env rom ram)
