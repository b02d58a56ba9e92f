-- ===== src/Reference/Config.antt =====
-- The constructor of `WhisperRef` and the helpers it calls (WhisperRef.cpp), less what it prints.
pub mod Images
pub mod Boot
pub mod Pmp
pub mod Calls
use mints_riscv_cpu.Base.{
  ℕ, zero, suc, ◌+◌, Bool, true, false, ◌==◌, if◌then◌else◌, List, [], ◌∷◌, ◌++◌, Text, codes,
  is_empty, to_hex, to_decimal,
}
use mints_riscv_cpu.Reference.Result.{
  Result, ok, fail, require, or_fail, ◌>>=◌, ◌>>◌, csr_not_disabled, misa_not_configured,
  mimpid_not_configured, no_hart, isa_not_configured, machine_counters_not_disabled,
  user_counters_not_disabled, misa_unreadable, elf_not_loaded, binary_not_loaded, misa_mismatch,
  a0_not_initialized, a1_not_initialized, pc_mismatch, a0_mismatch, a1_mismatch,
}
use mints_riscv_cpu.Reference.Commit.{WhisperConfig}
use mints_riscv_cpu.Reference.Hart.{Hart, CsrSetup, misa}

-- `kRtlMisa`.
abbrev pub rtl_misa : ℕ
rtl_misa = 0x8000000000141105

-- The arguments that mark a CSR as unimplemented.
abbrev pub unimplemented : CsrSetup
unimplemented = record {
  implemented = false;
  reset_value = 0;
  write_mask = 0;
  poke_mask = 0;
  shared = false;
}

-- The arguments that give a CSR a value that no instruction changes.
abbrev pub read_only : ℕ → CsrSetup
read_only value = record {
  implemented = true;
  reset_value = value;
  write_mask = 0;
  poke_mask = 0;
  shared = true;
}

-- The names of `left` CSRs whose indices start at `index` and grow by `by`.
unfoldable pub numbered : Text → ℕ → ℕ → ℕ → List Text
numbered prefix by zero index = []
numbered prefix by (suc left) index =
    (prefix ++ to_decimal index) ∷ numbered prefix by left (index + by)

-- pmpaddr8 to pmpaddr63, and every second pmpcfg from pmpcfg2 to pmpcfg14.
unfoldable pub pmpaddr_names : List Text
pmpaddr_names = numbered (codes "pmpaddr") 1 56 8

unfoldable pub pmpcfg_names : List Text
pmpcfg_names = numbered (codes "pmpcfg") 2 7 2

-- `binary_spec`.
unfoldable pub binary_spec : Text → ℕ → Text
binary_spec path address = path ++ (codes ":0x" ++ to_hex address)

-- `binaries`: the images that are configured at all.
unfoldable pub image_specs : WhisperConfig → List Text
image_specs config =
    (if is_empty config.dtb_binary
      then []
      else binary_spec config.dtb_binary config.dtb_address ∷ [])
    ++ (if is_empty config.linux_binary
        then []
        else binary_spec config.linux_binary config.linux_address ∷ [])

module _ (h : Hart) where
  unfoldable pub disable_csrs : List Text → h.State → Result h.State
  disable_csrs [] s = ok s
  disable_csrs (name ∷ names) s =
      or_fail (h.config_csr s name unimplemented) (csr_not_disabled name) >>= disable_csrs names

  unfoldable pub configure_rtl_pmp_csrs : h.State → Result h.State
  configure_rtl_pmp_csrs s = disable_csrs pmpaddr_names s >>= disable_csrs pmpcfg_names

  unfoldable pub configure_rtl_misa : h.State → Result h.State
  configure_rtl_misa s =
      or_fail (h.config_csr s (codes "misa") (read_only rtl_misa)) misa_not_configured

  unfoldable pub configure_rtl_mimpid : h.State → Result h.State
  configure_rtl_mimpid s =
      or_fail (h.config_csr s (codes "mimpid") (read_only 1)) mimpid_not_configured

  -- Everything before the reset.
  unfoldable pub configure : WhisperConfig → Result h.State
  configure config = do
    let s = h.new_system config.memory_size config.page_size
    require (h.has_hart s) no_hart
    with_isa ← or_fail (h.config_isa s (codes "imacsu_zicsr_zifencei_zicntr")) isa_not_configured
    with_misa ← configure_rtl_misa with_isa
    with_mimpid ← configure_rtl_mimpid with_misa
    with_pmp ← configure_rtl_pmp_csrs with_mimpid
    with_machine ← or_fail (h.config_machine_counters with_pmp 0) machine_counters_not_disabled
    or_fail (h.config_user_counters with_machine 0) user_counters_not_disabled

  -- The check of MISA after the reset.
  unfoldable pub check_misa : h.State → Result h.State
  check_misa s = do
    whisper_misa ← or_fail (h.peek_csr s misa) misa_unreadable
    require (whisper_misa == rtl_misa) (misa_mismatch whisper_misa rtl_misa)
    ok s

  unfoldable pub load_images : WhisperConfig → h.State → Result h.State
  load_images config s = do
    with_elf ← or_fail (h.load_elf_file s config.opensbi_elf) elf_not_loaded
    if is_empty (image_specs config)
        then ok with_elf
        else or_fail (h.load_binary_files with_elf (image_specs config)) binary_not_loaded

  -- The read-back of the entry state.
  unfoldable pub read_back : WhisperConfig → h.State → Result h.State
  read_back config s = do
    require (h.peek_pc s == config.start_pc) (pc_mismatch config.start_pc (h.peek_pc s))
    require (h.peek_int_reg s 10 == config.hart_id)
        (a0_mismatch config.hart_id (h.peek_int_reg s 10))
    require (h.peek_int_reg s 11 == config.dtb_address)
        (a1_mismatch config.dtb_address (h.peek_int_reg s 11))
    ok s

  -- The entry state of the firmware.
  unfoldable pub enter_firmware : WhisperConfig → h.State → Result h.State
  enter_firmware config s = do
    with_a0 ←
        or_fail (h.poke_int_reg (h.poke_pc config.start_pc s) 10 config.hart_id) a0_not_initialized
    with_a1 ← or_fail (h.poke_int_reg with_a0 11 config.dtb_address) a1_not_initialized
    read_back config with_a1

  -- `WhisperRef::WhisperRef`.
  unfoldable pub construct : WhisperConfig → Result h.State
  construct config = do
    configured ← configure config
    checked ← check_misa (h.reset configured)
    loaded ← load_images config checked
    enter_firmware config loaded
