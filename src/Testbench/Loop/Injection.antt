-- ===== src/Testbench/Loop/Injection.antt =====
-- The interrupts that `step` is told of, and which accepted traps they are.
use mints_riscv_cpu.Base.{
  Bool, not, ◌&&◌, ◌≡◌, ◌==◌, ◌||◌, ◌+◌, ◌%◌, ◌^◌, true, refl, sym, ap, ◌∙◌, arith, List, [], ◌∷◌,
  if◌then◌else◌,
}
use mints_riscv_cpu.Reference.Result.{ok, >>=-eq-ok, ok-injective}
use mints_riscv_cpu.Reference.Commit.{RefCommit, RtlRetire}
use mints_riscv_cpu.Reference.Hart.{Hart}
use mints_riscv_cpu.Reference.Step.{step}
use mints_riscv_cpu.Testbench.Dut.{Dut}
use mints_riscv_cpu.Testbench.Harness.{
  Options, Lockstep, Pending, no_pending, reported_trap, seip_event, initial, observe_uart,
  observe_seip, observe_mtimer, count_retire, rearm, judge, lockstep_start_pc, retire_request,
  can_sync_exception, observe_exception, rising_edge,
}
use mints_riscv_cpu.Testbench.Harness.Edges.{
  Retirement, idle, boot, compared, observed, rising_edge-Retirement, compared_state,
  observe_retire-Retirement,
}
use mints_riscv_cpu.Testbench.Loop.Runs.{Run, begun, edge}
use mints_riscv_cpu.Testbench.Loop.Log.{has_started, Run-Logged}

-- The latest trap for which `event` holds among those that wait: a trap on an edge without a
-- retirement waits from then on, one on the edge of a compared retirement from after it, and one on
-- the edge of a retirement before the start of the comparison does not wait. A comparison takes all
-- that wait, and of two the later one replaces the earlier. Edges are given latest first.
abbrev pub latest_trap : (Dut → Bool) → List Dut → Pending
latest_trap event [] = no_pending
latest_trap event (dut ∷ before) =
    if dut.retire_valid
    then (if has_started (dut ∷ before)
        then (if event dut then reported_trap dut else no_pending)
        else latest_trap event before)
    else (if event dut then reported_trap dut else latest_trap event before)

module _ (h : Hart) (options : Options) where
  observed-pending :
      (dut : Dut) (l : Lockstep h.State) (w : h.State)
      → let m = observed h options dut l w in
        (m.started ≡ l.started)
        × (m.mtimer ≡ (
            if dut.lockstep_mtip_trap_taken && not dut.retire_valid
            then reported_trap dut
            else l.mtimer))
        × (m.seip ≡ (if seip_event dut && not dut.retire_valid then reported_trap dut else l.seip))
  unfolding observe_uart observe_seip observe_mtimer
  observed-pending dut l w = ground arith

  record Injects (duts : List Dut) (l : Lockstep h.State) : Type 0 where
    mtimer : l.mtimer ≡ latest_trap (λ dut. dut.lockstep_mtip_trap_taken) duts
    seip : l.seip ≡ latest_trap seip_event duts

  Retirement-Injects :
      (dut : Dut) (duts : List Dut) (l l' : Lockstep h.State) (w : h.State)
      → Injects duts l
      → l.started ≡ has_started duts
      → Retirement h options dut (observed h options dut l w) l'
      → Injects (dut ∷ duts) l'
  unfolding count_retire rearm judge
  Retirement-Injects dut duts l l' w v s (idle idles same) =
      ground (arith, observed-pending dut l w)
  Retirement-Injects dut duts l l' w v s (boot valid boots same) =
      ground (arith, observed-pending dut l w)
  Retirement-Injects dut duts l l' w v s (compared ref t valid started stepped same) =
      ground (arith, observed-pending dut l w)

  -- After any run the two pending injections are those that wait.
  pub Run-pending :
      (w : h.State) {duts : List Dut} {l : Lockstep h.State}
      → Run h options (initial w) duts l
      → (l.mtimer ≡ latest_trap (λ dut. dut.lockstep_mtip_trap_taken) duts)
        × (l.seip ≡ latest_trap seip_event duts)
  Run-pending w begun = (refl, refl)
  Run-pending w (edge {duts} {l} {l'} dut run quiet running e) =
      let (s, synced, retirement) = rising_edge-Retirement h options dut l l' e in
      let (mtimer, seip) = Run-pending w run in
      let next =
        Retirement-Injects dut duts l l' s (record { mtimer = mtimer; seip = seip })
          (Run-Logged h options w run).started retirement in
      (next.mtimer, next.seip)

-- The arguments of `step` for a retirement with the injections `timer` and `external`.
abbrev pub injected_request : Dut → Pending → Pending → RtlRetire
injected_request dut timer external = record {
  inst = dut.retire_inst;
  rd_we = dut.retire_rd_we;
  rd = dut.retire_rd_addr;
  rd_data = dut.retire_rd_data;
  mem_valid = dut.retire_mem_valid;
  mem_write = dut.retire_mem_write;
  mem_addr = dut.retire_mem_addr;
  mem_pa = dut.retire_mem_pa;
  mem_mask = dut.retire_mem_mask;
  mem_data = dut.retire_mem_data;
  mtip = timer.armed;
  seip = external.armed;
  interrupt_from_wfi =
      timer.armed && timer.trap_inst == 0x10500073
      || external.armed && external.trap_inst == 0x10500073;
  interrupt_epc = (if timer.armed then timer.trap_pc + 4 else external.trap_pc + 4) % 2 ^ 64;
}

module _ (h : Hart) (options : Options) where
  retire_request-injected :
      (dut : Dut) (l : Lockstep h.State)
      → dut.retire_valid ≡ true
      → retire_request dut
          (count_retire dut (observe_mtimer dut (observe_seip dut (observe_uart dut l))))
        ≡ injected_request dut l.mtimer l.seip
  unfolding retire_request count_retire observe_mtimer observe_seip observe_uart
  retire_request-injected dut l valid = ground (arith, valid)

  observe_exception-retires :
      (dut : Dut) (l : Lockstep h.State)
      → dut.retire_valid ≡ true
      → observe_exception h dut l ≡ ok l
  unfolding observe_exception can_sync_exception
  observe_exception-retires dut l valid = ground (arith, valid)

  observed-whisper :
      (dut : Dut) (l : Lockstep h.State)
      → ((count_retire dut (observe_mtimer dut (observe_seip dut (observe_uart dut l)))).whisper
          ≡ l.whisper)
        × ((count_retire dut (observe_mtimer dut (observe_seip dut (observe_uart dut l)))).started
            ≡ (l.started || dut.retire_pc == lockstep_start_pc))
  unfolding count_retire observe_mtimer observe_seip observe_uart
  observed-whisper dut l = ground arith

  judged-whisper :
      (dut : Dut) (ref : RefCommit) (l : Lockstep h.State) (w : h.State)
      → (judge options dut ref (compared_state dut l w)).whisper ≡ w
  unfolding judge rearm
  judged-whisper dut ref l w = ground arith

  Retirement-step :
      (dut : Dut) (l l' : Lockstep h.State)
      → dut.retire_valid ≡ true
      → (l.started || dut.retire_pc == lockstep_start_pc) ≡ true
      → Retirement h options dut (observe_mtimer dut (observe_seip dut (observe_uart dut l))) l'
      → (ref : RefCommit) × (step h (injected_request dut l.mtimer l.seip) l.whisper
          ≡ ok (ref, l'.whisper))
  Retirement-step dut l l' valid starts (idle idles same) = cc
  Retirement-step dut l l' valid starts (boot is_valid boots same) = cc (observed-whisper dut l).1
  Retirement-step dut l l' valid starts (compared ref w is_valid on stepped same) =
      let left : l'.whisper ≡ w =
        ap (λ x. x.whisper) same
        ∙ judged-whisper dut ref
            (count_retire dut (observe_mtimer dut (observe_seip dut (observe_uart dut l)))) w in
      (
        ref,
        (ap (λ q. step h q l.whisper) (sym (retire_request-injected dut l valid))
            ∙ ap
                (step h (
                  retire_request dut (
                    count_retire dut (observe_mtimer dut (observe_seip dut (observe_uart dut l))))))
                (sym (observed-whisper dut l).0)
            ∙ stepped
            ∙ ap (λ x. ok (ref, x)) (sym left)),
      )

  -- When the RTL retires an instruction that is compared, Whisper's one step for it, from the state
  -- in which the run has left it, is told of the machine-timer and the supervisor-external trap that
  -- wait after the run, and of no others: whether there is one, whether one of them was taken out of
  -- a WFI, and the PC behind the former if it waits, and else behind the latter.
  pub Run-Injects :
      (w : h.State) {duts : List Dut} {l : Lockstep h.State}
      → Run h options (initial w) duts l
      → (dut : Dut) (l' : Lockstep h.State) → dut.retire_valid ≡ true
      → has_started (dut ∷ duts) ≡ true
      → rising_edge h options dut l ≡ ok l'
      → (ref : RefCommit) × (step h
            (injected_request dut
              (latest_trap (λ d. d.lockstep_mtip_trap_taken) duts)
              (latest_trap seip_event duts))
            l.whisper
          ≡ ok (ref, l'.whisper))
  unfolding rising_edge
  Run-Injects w {duts} {l} run dut l' valid starts e =
      let heard = observe_uart dut l in
      let (synced, e1, rest) = >>=-eq-ok (observe_exception h dut heard) _ e in
      let same : heard ≡ synced =
        ok-injective (sym (observe_exception-retires dut heard valid) ∙ e1) in
      let retirement =
        observe_retire-Retirement h options dut (observe_mtimer dut (observe_seip dut heard)) l'
          (rw (← same) at rest) in
      let (mtimer, seip) = Run-pending h options w run in
      let started = (Run-Logged h options w run).started in
      rw (← mtimer, ← seip)
        (Retirement-step dut l l' valid (ground (arith, started, starts)) retirement)
