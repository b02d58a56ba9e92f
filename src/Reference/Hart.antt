-- ===== src/Reference/Hart.antt =====
-- The Whisper simulator, which tools/whisper_lockstep/WhisperRef.cpp only calls: its operations
-- are parameters of the model. One `State` stands for the `System` with its hart 0, since the two
-- share their memory. A call that reports failure by `false` returns `none`.
use mints_riscv_cpu.Base.{ℕ, Bool, List, Option, some, ◌≡◌, ◌≢◌, ◌<◌, ◌^◌, Text}

-- The control and status registers that the harness names.
pub data Csr : Type 0 where
  mip mtvec stvec mepc sepc misa : Csr

-- `int`, as `lastIntReg` returns it: `negsuc n` is -(n + 1).
pub data ℤ : Type 0 where
  pos : ℕ → ℤ
  negsuc : ℕ → ℤ

-- What `lastLdStAddress` and `lastStore` return and write to their reference arguments; the value
-- is `lastStore`'s alone.
pub record Access : Type 0 where
  pub size : ℕ
  pub va : ℕ
  pub pa1 : ℕ
  pub pa2 : ℕ

pub record StoreAccess : Type 0 where
  pub access : Access
  pub value : ℕ

-- The arguments of `configCsr` after the name.
pub record CsrSetup : Type 0 where
  pub implemented : Bool
  pub reset_value : ℕ
  pub write_mask : ℕ
  pub poke_mask : ℕ
  pub shared : Bool

pub record Hart : Type 1 where
  pub State : Type 0
  pub peek_pc : State → ℕ
  pub poke_pc : ℕ → State → State
  pub privilege_mode : State → ℕ
  pub peek_int_reg : State → ℕ → ℕ
  pub poke_int_reg : State → ℕ → ℕ → Option State
  pub peek_csr : State → Csr → Option ℕ
  pub external_poke_csr : State → Csr → ℕ → Option State
  -- The address, the number of bytes and the value.
  pub poke_memory : State → ℕ → ℕ → ℕ → Option State
  pub single_step : State → State
  pub last_trapped : State → Bool
  pub last_interrupted : State → Bool
  pub last_trap_cause : State → ℕ
  pub last_int_reg : State → ℤ
  pub last_ld_st_address : State → Access
  pub last_store : State → StoreAccess
  pub last_csr : State → List ℕ
  pub last_csr_value : State → ℕ → ℕ
  -- The set-up calls: the system's constructor, `ithHart(0) != nullptr`, and the rest.
  pub new_system : ℕ → ℕ → State
  pub has_hart : State → Bool
  pub config_isa : State → Text → Option State
  pub config_csr : State → Text → CsrSetup → Option State
  pub config_machine_counters : State → ℕ → Option State
  pub config_user_counters : State → ℕ → Option State
  pub reset : State → State
  pub load_elf_file : State → Text → Option State
  pub load_binary_files : State → List Text → Option State

-- An integer register but x0 holds the 64-bit word that was poked into it.
pub record PokesAreRead (h : Hart) : Type 0 where
  pub peek-poke_int_reg :
      (s s' : h.State) (r v : ℕ)
      → r ≢ 0
      → v < 2 ^ 64
      → h.poke_int_reg s r v ≡ some s'
      → h.peek_int_reg s' r ≡ v
