-- ===== src/Testbench/Harness/Edges.antt =====
-- The cases of a rising edge, and what each leaves alone.
use mints_riscv_cpu.Base.{◌+◌, true, false, ◌&&◌, ◌≡◌, sym, ◌∙◌, arith, inl, inr, Bool-cases, u64}
use mints_riscv_cpu.Reference.Result.{ok, >>=-eq-ok, ok-injective}
use mints_riscv_cpu.Reference.Commit.{RefCommit}
use mints_riscv_cpu.Reference.Hart.{Hart}
use mints_riscv_cpu.Reference.Step.{step}
use mints_riscv_cpu.Reference.Trap.{step_non_retiring_trap}
use mints_riscv_cpu.Testbench.Dut.{Dut}
use mints_riscv_cpu.Testbench.Harness.{
  Options, Lockstep, observe_uart, observe_seip, observe_mtimer, count_retire, rearm, judge,
  retire_request, can_sync_exception, observe_exception, compare_retire, observe_retire,
  rising_edge,
}

-- The state after a comparison, before the report is judged.
abbrev pub compared_state : {S : Type 0} → Dut → Lockstep S → S → Lockstep S
compared_state dut counted w =
    rearm dut (record counted { whisper = w; compared_order = u64 (counted.compared_order + 1) })

-- What the exceptions of the RTL do to Whisper on a rising edge: nothing, or one step over a trap.
pub data Synced (h : Hart) (w : h.State) : h.State → Type 0 where
  unchanged : Synced h w w
  skipped :
      {t : h.State} (c : RefCommit)
      → step_non_retiring_trap h w false false ≡ ok (c, t)
      → Synced h w t

-- What a rising edge does after the events are observed: `before` is the state then.
pub data Retirement (h : Hart) (options : Options) (dut : Dut) (before after : Lockstep h.State)
    : Type 0 where
  idle : dut.retire_valid ≡ false → after ≡ before → Retirement h options dut before after
  boot :
      dut.retire_valid ≡ true
      → (count_retire dut before).started ≡ false
      → after ≡ count_retire dut before
      → Retirement h options dut before after
  compared :
      (ref : RefCommit) (w : h.State)
      → dut.retire_valid ≡ true
      → (count_retire dut before).started ≡ true
      → step h (retire_request dut (count_retire dut before)) (count_retire dut before).whisper
        ≡ ok (ref, w)
      → after ≡ judge options dut ref (compared_state dut (count_retire dut before) w)
      → Retirement h options dut before after

module _ (h : Hart) (options : Options) (dut : Dut) where
  pub exception-whisper :
      (l l' : Lockstep h.State)
      → observe_exception h dut l ≡ ok l'
      → (w : h.State) × Synced h l.whisper w × (l' ≡ record l { whisper = w })
  unfolding observe_exception
  exception-whisper l l' e =
      elim (Bool-cases (dut.lockstep_exception_trap_taken && can_sync_exception h dut l)) [
        | inr quiet ↦ (l.whisper, unchanged, sym (ok-injective (rw quiet at e)))
        | inl sync ↦
            let (r, trapped, same) =
              >>=-eq-ok (step_non_retiring_trap h l.whisper false false)
                (λ r. ok (record l { whisper = r.1 })) (rw sync at e) in
            (r.1, skipped r.0 trapped, sym (ok-injective same))
      ]

  observe_retire-compare_retire :
      (l : Lockstep h.State)
      → dut.retire_valid ≡ true
      → (count_retire dut l).started ≡ true
      → observe_retire h options dut l ≡ compare_retire h options dut (count_retire dut l)
  unfolding observe_retire
  observe_retire-compare_retire l valid started = ground arith

  pub observe_retire-Retirement :
      (l l' : Lockstep h.State)
      → observe_retire h options dut l ≡ ok l'
      → Retirement h options dut l l'
  unfolding observe_retire compare_retire
  observe_retire-Retirement l l' e = elim (Bool-cases dut.retire_valid) [
    | inr idles ↦ idle idles (ground arith)
    | inl valid ↦ elim (Bool-cases (count_retire dut l).started) [
      | inr boots ↦ boot valid boots (ground arith)
      | inl started ↦
          let counted = count_retire dut l in
          let (r, stepped, same) =
            >>=-eq-ok (step h (retire_request dut counted) counted.whisper)
              (λ r. ok (judge options dut r.0 (compared_state dut counted r.1)))
              (sym (observe_retire-compare_retire l valid started) ∙ e) in
          compared r.0 r.1 valid started stepped (sym (ok-injective same))
    ]
  ]

  observe_uart-whisper : (l : Lockstep h.State) → (observe_uart dut l).whisper ≡ l.whisper
  unfolding observe_uart
  observe_uart-whisper l = ground arith

  -- The state in which the retirement is looked at.
  abbrev pub observed : Lockstep h.State → h.State → Lockstep h.State
  observed l w = observe_mtimer dut (observe_seip dut (record (observe_uart dut l) { whisper = w }))

  -- A rising edge without an exception observes the events, with some state of Whisper, and then
  -- the retirement.
  pub rising_edge-Retirement :
      (l l' : Lockstep h.State)
      → rising_edge h options dut l ≡ ok l'
      → (w : h.State) × Synced h l.whisper w × Retirement h options dut (observed l w) l'
  unfolding rising_edge
  rising_edge-Retirement l l' e =
      let (synced, e1, rest) = >>=-eq-ok (observe_exception h dut (observe_uart dut l)) _ e in
      let (w, between, same) = exception-whisper (observe_uart dut l) synced e1 in
      (
        w,
        rw (← observe_uart-whisper l) between,
        observe_retire-Retirement (observed l w) l' (rw same at rest),
      )
