-- ===== src/Testbench/Loop/Bounds.antt =====
-- What a run keeps within bounds.
use mints_riscv_cpu.Base.{
  ◌-◌, ◌^◌, ◌<◌, ◌≤◌, arith, List, [], ◌∷◌, length, length-drop, ap, ◌⊎◌, inl, inr, ltb, Bool-cases,
}
use mints_riscv_cpu.Reference.Hart.{Hart}
use mints_riscv_cpu.Testbench.Dut.{Dut}
use mints_riscv_cpu.Testbench.Harness.{Options, Lockstep, initial}
use mints_riscv_cpu.Testbench.Loop.Runs.{Run}
use mints_riscv_cpu.Testbench.Loop.Log.{to_compare, retired, Run-Logged}
use mints_riscv_cpu.Testbench.Loop.Pass.{transmitted, Run-Watched}

to_compare-le-retired : (duts : List Dut) → length (to_compare duts) ≤ retired duts
to_compare-le-retired [] = omega arith
to_compare-le-retired (dut ∷ before) = ground (arith, to_compare-le-retired before)

-- After any run the window has at most the 17 characters of the pass token, both counters are 64-bit
-- numbers, and no more instructions were compared than have retired, unless 2 ^ 64 or more have
-- retired.
pub Run-bounds :
    (h : Hart) (options : Options) (w : h.State) {duts : List Dut} {l : Lockstep h.State}
    → Run h options (initial w) duts l
    → (length l.uart_window ≤ 17)
      × (l.compared_order < 2 ^ 64)
      × (l.rtl_retire_order < 2 ^ 64)
      × ((l.compared_order ≤ l.rtl_retire_order) ⊎ (2 ^ 64 ≤ retired duts))
Run-bounds h options w {duts} {l} run =
    let logged = Run-Logged h options w run in
    let watched = Run-Watched h options w run in
    let stream = transmitted duts in
    let le = to_compare-le-retired duts in
    (
      omega (arith, ap length watched.window, length-drop (length stream - 17) stream),
      omega (arith, logged.order),
      omega (arith, logged.retire_order),
      elim (Bool-cases (ltb (retired duts) (2 ^ 64))) [
        | inl e ↦ inl (ground (arith, e, logged.order, logged.retire_order, le))
        | inr e ↦ inr (ground (arith, e))
      ],
    )
