-- ===== src/Testbench/Loop/Pass.antt =====
-- The pass token over a whole run.
use mints_riscv_cpu.Base.{
  true, false, ◌≡◌, ◌↔◌, refl, sym, ap, ◌∙◌, arith, List, [], ◌∷◌, ◌++◌, Text, same_text,
  if◌then◌else◌,
}
use mints_riscv_cpu.Reference.Hart.{Hart}
use mints_riscv_cpu.Testbench.Dut.{Dut}
use mints_riscv_cpu.Testbench.Uart.{busybox_pass_token, is_pass_token}
use mints_riscv_cpu.Testbench.Uart.Stream.{
  recent, push_char-recent, window_after-recent, is_pass_token-window_iff,
}
use mints_riscv_cpu.Testbench.Harness.{
  Options, Lockstep, initial, observe_uart, observe_seip, observe_mtimer, count_retire, rearm,
  judge,
}
use mints_riscv_cpu.Testbench.Harness.Edges.{
  Retirement, idle, boot, compared, observed, rising_edge-Retirement,
}
use mints_riscv_cpu.Testbench.Loop.Runs.{Run, begun, edge}

-- The characters that the UART transmitted during a run, in order.
abbrev pub transmitted : List Dut → Text
transmitted [] = []
transmitted (dut ∷ before) =
    if dut.lockstep_uart_tx_valid
    then transmitted before ++ dut.lockstep_uart_tx_char ∷ []
    else transmitted before

module _ (h : Hart) (options : Options) where
  -- An edge treats the window and the pass flag as `observe_uart` does, and keeps a request to
  -- finish.
  record KeepsUart (dut : Dut) (l l' : Lockstep h.State) : Type 0 where
    window : l'.uart_window ≡ (observe_uart dut l).uart_window
    passed : l'.busybox_pass_reached ≡ (observe_uart dut l).busybox_pass_reached
    finishing : (observe_uart dut l).got_finish ≡ true → l'.got_finish ≡ true

  Retirement-KeepsUart :
      (dut : Dut) (l l' : Lockstep h.State) (w : h.State)
      → Retirement h options dut (observed h options dut l w) l'
      → KeepsUart dut l l'
  unfolding observe_seip observe_mtimer count_retire rearm judge
  Retirement-KeepsUart dut l l' w (idle idles same) = ground arith
  Retirement-KeepsUart dut l l' w (boot valid boots same) = ground arith
  Retirement-KeepsUart dut l l' w (compared ref s valid started stepped same) = ground arith

  -- After a run the window holds the end of what was transmitted, the flag tells whether it is the
  -- token, and a pass has asked to finish.
  pub record Watched (duts : List Dut) (l : Lockstep h.State) : Type 0 where
    pub window : l.uart_window ≡ recent (transmitted duts)
    pub passed : l.busybox_pass_reached ≡ is_pass_token (recent (transmitted duts))
    pub finishing : l.busybox_pass_reached ≡ true → l.got_finish ≡ true

  observe_uart-Watched :
      (dut : Dut) (duts : List Dut) (l l' : Lockstep h.State)
      → Watched duts l
      → l.got_finish ≡ false
      → KeepsUart dut l l'
      → Watched (dut ∷ duts) l'
  unfolding observe_uart
  observe_uart-Watched dut duts l l' v running kept =
      ground (arith, push_char-recent (transmitted duts) dut.lockstep_uart_tx_char)

  pub Run-Watched :
      (w : h.State) {duts : List Dut} {l : Lockstep h.State}
      → Run h options (initial w) duts l
      → Watched duts l
  unfolding is_pass_token same_text
  Run-Watched w begun = record { window = refl; passed = refl; finishing = λ e. cc }
  Run-Watched w (edge {duts} {l} {l'} dut run quiet running e) =
      let (s, synced, retirement) = rising_edge-Retirement h options dut l l' e in
      observe_uart-Watched dut duts l l' (Run-Watched w run) running
        (Retirement-KeepsUart dut l l' s retirement)

  -- After any run of the harness, the BusyBox pass is reported exactly when what the UART
  -- transmitted ends in the pass token, and then the harness has asked to finish.
  pub busybox_pass_iff :
      {duts : List Dut} {l : Lockstep h.State} (w : h.State)
      → Run h options (initial w) duts l
      → ((l.busybox_pass_reached ≡ true)
          ↔ ((before : Text) × (transmitted duts ≡ before ++ busybox_pass_token)))
        × (l.busybox_pass_reached ≡ true → l.got_finish ≡ true)
  busybox_pass_iff {duts} w run =
      let v = Run-Watched w run in
      let ends = is_pass_token-window_iff (transmitted duts) in
      let flag = v.passed ∙ sym (ap is_pass_token (window_after-recent (transmitted duts))) in
      ((λ e. ends.0 (sym flag ∙ e), λ e. flag ∙ ends.1 e), v.finishing)
