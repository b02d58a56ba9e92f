-- ===== src/Examples/Host.antt =====
-- The theorems about the host at concrete inputs.
use mints_riscv_cpu.Base.{ℕ, ◌<◌, ◌≡◌, refl, true, false, [], Option, none, some, arith}
use mints_riscv_cpu.Testbench.Host.{
  Termios, System, Process, get_input_dpic, return_from_main, sighandler, set_nonblocking,
}
use mints_riscv_cpu.Testbench.Host.Input.{received, received-get_input_dpic}
use mints_riscv_cpu.Testbench.Host.Terminal.{IsFresh, Left, set_nonblocking-Left}

-- A terminal that keeps its settings and flags, with one key pressed.
record Screen : Type 0 where
  setting : Termios
  flags : ℕ
  key : Option ℕ

abbrev screen_system : System
screen_system = record {
  State = Screen;
  icanon = 2;
  echo = 8;
  o_nonblock = 2048;
  isatty = λ s. true;
  tcgetattr = λ s. some s.setting;
  tcsetattr = λ s t. some (record s { setting = t });
  fcntl_getfl = λ s. some s.flags;
  fcntl_setfl = λ s n. some (record s { flags = n });
  read = λ s. (s.key, record s { key = none });
}

abbrev cooked : Termios
cooked = record { c_lflag = 0x8a3b; vmin = 1; vtime = 0; others = 0 }

abbrev shell : Screen
shell = record { setting = cooked; flags = 2; key = some 97 }

abbrev fresh : Process Screen
fresh = record {
  system = shell;
  old_setting = record { c_lflag = 0; vmin = 0; vtime = 0; others = 0 };
  termios_changed = false;
  handled = [];
  at_exit = false;
}

fresh-IsFresh : IsFresh fresh
fresh-IsFresh = record { unchanged = refl; not_at_exit = refl; unhandled = refl }

shell_key : (c : ℕ) → (screen_system.read shell).0 ≡ some c → c < 256
shell_key c e = let pressed : 97 ≡ c = cc in omega (arith, pressed)

received-get_input_dpic_example : received (get_input_dpic screen_system shell).0 ≡ some 97
received-get_input_dpic_example = received-get_input_dpic screen_system shell shell_key

set_nonblocking-Left_example :
    let q = set_nonblocking screen_system fresh in
    Left screen_system fresh q (return_from_main screen_system q).system
    × Left screen_system fresh q (sighandler screen_system 2 q).0.system
    × ((sighandler screen_system 2 q).1 ≡ 2)
set_nonblocking-Left_example = set_nonblocking-Left screen_system fresh 2 fresh-IsFresh
