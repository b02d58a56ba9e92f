-- ===== src/Testbench/Host.antt =====
-- The testbench and its host, in tb/tb_verilator.cpp: the two functions that the RTL calls, and the
-- terminal mode of interactive runs (ENABLE_DEBUG_INPUT).
pub mod Input
pub mod Terminal
use mints_riscv_cpu.Base.{
  ℕ, ◌-◌, ◌*◌, ◌^◌, Bool, true, false, not, if◌then◌else◌, bit_and, bit_or, List, [], ◌∷◌, Option,
  none, some, Text, shl64,
}

-- `get_env_value`, over what `getenv` returns.
unfoldable pub get_env_value : (Text → Option Text) → Text → Text
get_env_value getenv key = elim (getenv key) [ none ↦ [] | some value ↦ value ]

-- `struct termios`: what the testbench changes, and the rest as one number.
pub record Termios : Type 0 where
  pub c_lflag : ℕ
  pub vmin : ℕ
  pub vtime : ℕ
  pub others : ℕ

pub data Signal : Type 0 where
  sigint sigterm sigquit : Signal

-- The system calls on standard input: a call that returns -1 gives `none` and changes nothing. The
-- three flags are the system's constants.
pub record System : Type 1 where
  pub State : Type 0
  pub icanon : ℕ
  pub echo : ℕ
  pub o_nonblock : ℕ
  pub isatty : State → Bool
  pub tcgetattr : State → Option Termios
  pub tcsetattr : State → Termios → Option State
  pub fcntl_getfl : State → Option ℕ
  pub fcntl_setfl : State → ℕ → Option State
  -- One byte, if there is one.
  pub read : State → Option ℕ × State

-- The process: `old_setting`, `termios_changed`, the signals that `sighandler` handles, and whether
-- `restore_termios_setting` runs at exit.
pub record Process (S : Type 0) : Type 0 where
  pub system : S
  pub old_setting : Termios
  pub termios_changed : Bool
  pub handled : List Signal
  pub at_exit : Bool

-- ~x on a 32-bit `tcflag_t`.
abbrev pub not32 : ℕ → ℕ
not32 x = 2 ^ 32 - 1 - x

module _ (y : System) where
  -- `get_input_dpic`.
  unfoldable pub get_input_dpic : y.State → ℕ × y.State
  get_input_dpic s =
      let (byte, s') = y.read s in
      elim byte [ none ↦ (0, s') | some c ↦ (bit_or c (shl64 0x01010 44), s') ]

  unfoldable pub restore_termios_setting : Process y.State → Process y.State
  restore_termios_setting p = elim p.termios_changed [
    | false ↦ p
    | true ↦ elim (y.tcsetattr p.system p.old_setting) [
      | none ↦ p
      | some s ↦ record p { system = s }
    ]
  ]

  -- `sighandler`: the process that is left, and the status of `_Exit`.
  unfoldable pub sighandler : ℕ → Process y.State → Process y.State × ℕ
  sighandler signum p = (restore_termios_setting p, signum)

  -- The return from `main`, with what `atexit` has registered.
  unfoldable pub return_from_main : Process y.State → Process y.State
  return_from_main p = if p.at_exit then restore_termios_setting p else p

  -- `new_setting`.
  unfoldable pub raw_setting : Termios → Termios
  raw_setting old = record old {
    c_lflag = bit_and old.c_lflag (not32 (bit_or y.icanon y.echo));
    vmin = 0;
    vtime = 0;
  }

  -- The last part of `set_nonblocking`: the flags of the open file.
  unfoldable pub set_file_flags : Process y.State → Process y.State
  set_file_flags p = elim (y.fcntl_getfl p.system) [
    | none ↦ p
    | some flags ↦ elim (y.fcntl_setfl p.system (bit_or flags y.o_nonblock)) [
      | none ↦ p
      | some s ↦ record p { system = s }
    ]
  ]

  -- The part of `set_nonblocking` after `tcgetattr`.
  unfoldable pub set_raw : Termios → Process y.State → Process y.State
  set_raw old p = elim (y.tcsetattr p.system (raw_setting old)) [
    | none ↦ record p { old_setting = old }
    | some s ↦ set_file_flags (record p {
      system = s;
      old_setting = old;
      termios_changed = true;
      handled = sigint ∷ sigterm ∷ sigquit ∷ [];
      at_exit = true;
    })
  ]

  unfoldable pub set_nonblocking : Process y.State → Process y.State
  set_nonblocking p = elim (y.isatty p.system) [
    | false ↦ p
    | true ↦ elim (y.tcgetattr p.system) [ none ↦ p | some old ↦ set_raw old p ]
  ]
