-- ===== src/Testbench/Loop/Log.antt =====
-- Which instructions a run compares, and with what result.
use mints_riscv_cpu.Base.{
  ℕ, suc, ◌+◌, Bool, true, false, not, ◌&&◌, ◌||◌, ◌==◌, ◌≡◌, refl, sym, ap, ◌∙◌, arith, inl, inr,
  List, [], ◌∷◌, length, if◌then◌else◌, u64, Bool-cases,
}
use mints_riscv_cpu.Reference.Result.{ok}
use mints_riscv_cpu.Reference.Commit.{RefCommit}
use mints_riscv_cpu.Reference.Hart.{Hart}
use mints_riscv_cpu.Reference.Step.{step}
use mints_riscv_cpu.Reference.Trap.{step_non_retiring_trap}
use mints_riscv_cpu.Testbench.Dut.{Dut}
use mints_riscv_cpu.Testbench.Compare.{compare_commit}
use mints_riscv_cpu.Testbench.Compare.Agreement.{Agrees, compare_commit_iff}
use mints_riscv_cpu.Testbench.Harness.{
  Options, Lockstep, initial, lockstep_start_pc, observe_uart, observe_seip, observe_mtimer,
  count_retire, rearm, judge, retire_request,
}
use mints_riscv_cpu.Testbench.Harness.Edges.{
  Retirement, Synced, unchanged, skipped, idle, boot, compared, observed, compared_state,
  rising_edge-Retirement,
}
use mints_riscv_cpu.Testbench.Loop.Runs.{Run, begun, edge}

-- Whether the RTL has retired the instruction at OpenSBI's entry, over edges that are given latest
-- first.
abbrev pub has_started : List Dut → Bool
has_started [] = false
has_started (dut ∷ before) =
    has_started before || dut.retire_valid && dut.retire_pc == lockstep_start_pc

-- The retirements from that one on, latest first.
abbrev pub to_compare : List Dut → List Dut
to_compare [] = []
to_compare (dut ∷ before) =
    if dut.retire_valid && has_started (dut ∷ before)
    then dut ∷ to_compare before
    else to_compare before

-- The number of retirements.
abbrev pub retired : List Dut → ℕ
retired [] = 0
retired (dut ∷ before) = if dut.retire_valid then suc (retired before) else retired before

module _ (h : Hart) (options : Options) (w : h.State) where
  -- The comparisons of a run, latest first, and Whisper's state after them. `w` is its first state;
  -- from then on each step starts in the state that the one before it left, for a retirement with
  -- the arguments that `main` passes in some state `x` of the harness. All commits agree, or the
  -- latest alone does not.
  pub data Log : List Dut → h.State → Bool → Type 0 where
    nothing : Log [] w false
    excepted :
        {duts : List Dut} {s t : h.State} (c : RefCommit)
        → Log duts s false
        → step_non_retiring_trap h s false false ≡ ok (c, t)
        → Log duts t false
    agreed :
        {duts : List Dut} (dut : Dut) (x : Lockstep h.State) (t : h.State) (ref : RefCommit)
        → Log duts x.whisper false
        → step h (retire_request dut x) x.whisper ≡ ok (ref, t)
        → Agrees dut ref
        → Log (dut ∷ duts) t false
    differed :
        {duts : List Dut} (dut : Dut) (x : Lockstep h.State) (t : h.State) (ref : RefCommit)
        → Log duts x.whisper false
        → step h (retire_request dut x) x.whisper ≡ ok (ref, t)
        → ¬ Agrees dut ref
        → Log (dut ∷ duts) t true

  -- How the counters and flags stand after a run.
  pub record Logged (duts : List Dut) (l : Lockstep h.State) : Type 0 where
    pub started : l.started ≡ has_started duts
    pub retire_order : l.rtl_retire_order ≡ u64 (retired duts)
    pub order : l.compared_order ≡ u64 (length (to_compare duts))
    pub log : Log (to_compare duts) l.whisper l.failed

  Log-transport :
      {duts duts' : List Dut} {s s' : h.State} {b b' : Bool}
      → duts ≡ duts'
      → s ≡ s'
      → b ≡ b'
      → Log duts' s' b'
      → Log duts s b
  Log-transport e g f log = rw (e, g, f) log

  -- A step over an exception is one more in the log.
  Log-Synced :
      {duts : List Dut} {s t : h.State} → Log duts s false → Synced h s t → Log duts t false
  Log-Synced log unchanged = log
  Log-Synced log (skipped c e) = excepted c log e

  -- The events of an edge leave these alone.
  pub observed-frame :
      (dut : Dut) (l : Lockstep h.State) (v : h.State)
      → let m = observed h options dut l v in
        (m.started ≡ l.started)
        × (m.rtl_retire_order ≡ l.rtl_retire_order)
        × (m.compared_order ≡ l.compared_order)
        × (m.failed ≡ l.failed)
        × (m.whisper ≡ v)
  unfolding observe_uart observe_seip observe_mtimer
  observed-frame dut l v = ground arith

  -- An edge that compares nothing.
  uncompared :
      (dut : Dut) (duts : List Dut)
      → (dut.retire_valid && has_started (dut ∷ duts)) ≡ false
      → to_compare (dut ∷ duts) ≡ to_compare duts
  uncompared dut duts e = rw e

  -- The judgement of a comparison.
  judged :
      (dut : Dut) (ref : RefCommit) (counted : Lockstep h.State) (v : h.State)
      → counted.failed ≡ false
      → let l' = judge options dut ref (compared_state dut counted v) in
        (l'.failed ≡ not (compare_commit dut ref).ok)
        × (l'.started ≡ counted.started)
        × (l'.rtl_retire_order ≡ counted.rtl_retire_order)
        × (l'.compared_order ≡ u64 (counted.compared_order + 1))
        × (l'.whisper ≡ v)
  unfolding judge rearm
  judged dut ref counted v f = ground arith

  entry :
      (dut : Dut) (duts : List Dut) (x : Lockstep h.State) (t : h.State) (ref : RefCommit)
      → Log duts x.whisper false
      → step h (retire_request dut x) x.whisper ≡ ok (ref, t)
      → Log (dut ∷ duts) t (not (compare_commit dut ref).ok)
  entry dut duts x t ref log stepped = elim (Bool-cases (compare_commit dut ref).ok) [
    | inl good ↦ rw good (agreed dut x t ref log stepped ((compare_commit_iff dut ref).0 good))
    | inr bad ↦
        rw bad
          (differed dut x t ref log stepped (λ agrees. cc ((compare_commit_iff dut ref).1 agrees)))
  ]

  Retirement-Logged :
      (dut : Dut) (duts : List Dut) (l m l' : Lockstep h.State)
      → Logged duts l
      → Log (to_compare duts) m.whisper false
      → l.failed ≡ false
      → (m.started ≡ l.started)
        × (m.rtl_retire_order ≡ l.rtl_retire_order)
        × (m.compared_order ≡ l.compared_order)
        × (m.failed ≡ l.failed)
      → Retirement h options dut m l'
      → Logged (dut ∷ duts) l'
  unfolding count_retire
  Retirement-Logged dut duts l m l' v between f kept (idle idles same) = record {
    started = ground (arith, v.started);
    retire_order = ground (arith, v.retire_order);
    order = ground (arith, v.order);
    log = Log-transport (uncompared dut duts (ground arith)) (ground arith) (ground arith) between;
  }
  Retirement-Logged dut duts l m l' v between f kept (boot valid boots same) = record {
    started = ground (arith, v.started);
    retire_order = ground (arith, v.retire_order);
    order = ground (arith, v.order, v.started);
    log =
        Log-transport (uncompared dut duts (ground (arith, v.started))) (ground arith)
          (ground arith) between;
  }
  Retirement-Logged dut duts l m l' v between f kept (compared ref s valid started stepped same) =
      let counted = count_retire dut m in
      let result = judged dut ref counted s (ground arith) in
      let listed : to_compare (dut ∷ duts) ≡ dut ∷ to_compare duts = ground (arith, v.started) in
      record {
        started = ground (arith, v.started, result);
        retire_order = ground (arith, v.retire_order, result);
        order = ground (arith, v.order, result, listed);
        log =
            Log-transport listed (ground (arith, result)) (ap (λ x. x.failed) same ∙ result.0)
              (entry dut (to_compare duts) counted s ref between stepped);
      }

  -- After any run of the harness: the comparison has started exactly if the RTL has retired the
  -- instruction at 0x80000000; the two counters are the numbers of retirements, from the start and
  -- from that one on, modulo 2 ^ 64; and each retirement from that one on was compared, in order,
  -- with the commit that `step` returned for it in the state in which Whisper was left by the one
  -- before it and by the steps over exceptions in between. All of them agreed, unless `failed` is
  -- set: then all but the latest agreed and the latest did not.
  pub Run-Logged :
      {duts : List Dut} {l : Lockstep h.State} → Run h options (initial w) duts l → Logged duts l
  Run-Logged begun = record { started = refl; retire_order = refl; order = refl; log = nothing }
  Run-Logged (edge {duts} {l} {l'} dut run quiet running e) =
      let (s, synced, retirement) = rising_edge-Retirement h options dut l l' e in
      let before = Run-Logged run in
      let kept = observed-frame dut l s in
      let between = Log-Synced (Log-transport refl refl (sym quiet) before.log) synced in
      Retirement-Logged dut duts l (observed h options dut l s) l' before
        (Log-transport refl kept.4 refl between) quiet (kept.0, kept.1, kept.2, kept.3) retirement
