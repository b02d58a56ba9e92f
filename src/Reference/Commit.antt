-- ===== src/Reference/Commit.antt =====
-- The data that the reference model exchanges with the testbench: the structs of
-- tools/whisper_lockstep/WhisperRef.hpp and the arguments of `WhisperRef::step`.
use mints_riscv_cpu.Base.{ℕ, Bool, false, List, [], Text}

pub record CsrWrite : Type 0 where
  pub number : ℕ
  pub value : ℕ

pub record RefCommit : Type 0 where
  pub pc : ℕ
  pub next_pc : ℕ
  pub privilege : ℕ
  pub rd_we : Bool
  pub rd : ℕ
  pub rd_data : ℕ
  pub mem_valid : Bool
  pub mem_write : Bool
  pub mem_va : ℕ
  pub mem_pa1 : ℕ
  pub mem_pa2 : ℕ
  pub mem_size : ℕ
  pub mem_data : ℕ
  pub trapped : Bool
  pub interrupted : Bool
  pub trap_cause : ℕ
  pub csr_writes : List CsrWrite

-- `RefCommit{}`: the members' initializers.
abbrev pub empty_commit : RefCommit
empty_commit = record {
  pc = 0;
  next_pc = 0;
  privilege = 0;
  rd_we = false;
  rd = 0;
  rd_data = 0;
  mem_valid = false;
  mem_write = false;
  mem_va = 0;
  mem_pa1 = 0;
  mem_pa2 = 0;
  mem_size = 0;
  mem_data = 0;
  trapped = false;
  interrupted = false;
  trap_cause = 0;
  csr_writes = [];
}

pub record WhisperConfig : Type 0 where
  pub opensbi_elf : Text
  pub dtb_binary : Text
  pub linux_binary : Text
  pub start_pc : ℕ
  pub hart_id : ℕ
  pub dtb_address : ℕ
  pub linux_address : ℕ
  pub memory_size : ℕ
  pub page_size : ℕ

-- `WhisperConfig config;`
abbrev pub default_config : WhisperConfig
default_config = record {
  opensbi_elf = [];
  dtb_binary = [];
  linux_binary = [];
  start_pc = 0x80000000;
  hart_id = 0;
  dtb_address = 0x87f00000;
  linux_address = 0x80200000;
  memory_size = 0x88000000;
  page_size = 4096;
}

-- The arguments of `WhisperRef::step`, `rtl_mem_mask` and `rtl_mem_data` included, which the
-- function leaves unused.
pub record RtlRetire : Type 0 where
  pub inst : ℕ
  pub rd_we : Bool
  pub rd : ℕ
  pub rd_data : ℕ
  pub mem_valid : Bool
  pub mem_write : Bool
  pub mem_addr : ℕ
  pub mem_pa : ℕ
  pub mem_mask : ℕ
  pub mem_data : ℕ
  pub mtip : Bool
  pub seip : Bool
  pub interrupt_from_wfi : Bool
  pub interrupt_epc : ℕ
