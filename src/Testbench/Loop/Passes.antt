-- ===== src/Testbench/Loop/Passes.antt =====
-- The passes of the loop: what it samples of the design, and why it ends.
use mints_riscv_cpu.Base.{
  ℕ, zero, suc, ◌+◌, ◌*◌, ◌^◌, ◌≤◌, ◌<◌, Bool, true, false, not, ◌≡◌, ◌≢◌, sym, ◌∙◌, arith, List,
  [], ◌∷◌, inl, inr, Bool-cases, ◌⊎◌, ltb, if◌then◌else◌,
}
use mints_riscv_cpu.Reference.Result.{Result-cases, ok, ok-injective}
use mints_riscv_cpu.Reference.Hart.{Hart}
use mints_riscv_cpu.Testbench.Dut.{Dut}
use mints_riscv_cpu.Testbench.Harness.{Options, Lockstep}
use mints_riscv_cpu.Testbench.Loop.{Design, stopped, loop, continues, cycles_left, observe}
use mints_riscv_cpu.Testbench.Loop.Runs.{
  Run, begun, edge, continues-flags, loop-stop, loop-abort, loop-next, loop-overflow,
}
use mints_riscv_cpu.Testbench.Loop.Liveness.{evaluated}

-- The ports behind each evaluation with the clock high, of `n` evaluations out of reset from a clock
-- that was `clk`, put before `duts`, so that the latest comes first.
abbrev pub sampled : (g : Design) → ℕ → Bool → g.State → List Dut → List Dut
sampled g zero clk d duts = duts
sampled g (suc n) clk d duts =
    let d' = g.eval (not clk) true d in
    sampled g n (not clk) d' (if not clk then g.ports d' ∷ duts else duts)

-- Why a loop ends before pass `half`: $finish, a request of the harness, a mismatch, or the cycle
-- limit, which a cast makes negative if it is 2 ^ 63 or more.
pub data Reason (g : Design) {S : Type 0} (cycles half : ℕ) (d : g.State) (l : Lockstep S)
    : Type 0 where
  has_finished : g.finished d ≡ true → Reason g cycles half d l
  was_asked : l.got_finish ≡ true → Reason g cycles half d l
  has_failed : l.failed ≡ true → Reason g cycles half d l
  at_limit : cycles ≢ 0 → (2 * cycles ≤ half) ⊎ (2 ^ 63 ≤ cycles) → Reason g cycles half d l

-- A run over these ports that has neither a mismatch nor a request to finish.
pub record Quiet (h : Hart) (options : Options) (start : Lockstep h.State) (duts : List Dut)
    : Type 0 where
  pub state : Lockstep h.State
  pub run : Run h options start duts state
  pub unfailed : state.failed ≡ false
  pub unasked : state.got_finish ≡ false

-- The loop that started in `start` and `d` ends after `passes` passes in `l` and `d'`: `d'` is the
-- design after as many evaluations; the harness has observed exactly the ports behind those with
-- the clock high; there is a reason to end; and before each of the passes there was none: no
-- $finish, the limit was not reached, and the run so far had neither a mismatch nor a request.
pub record Halted (h : Hart) (g : Design) (options : Options) (cycles : ℕ)
    (start : Lockstep h.State) (half : ℕ) (clk : Bool) (d : g.State) (duts : List Dut)
    (l : Lockstep h.State) (d' : g.State) (passes : ℕ) : Type 0 where
  pub design : d' ≡ evaluated g passes clk d
  pub run : Run h options start (sampled g passes clk d duts) l
  pub reason : Reason g cycles (half + passes) d' l
  pub earlier :
      (k : ℕ)
      → k < passes
      → (g.finished (evaluated g k clk d) ≡ false)
        × ((cycles ≡ 0) ⊎ ((cycles < 2 ^ 63) × (half + k < 2 * cycles)))
        × Quiet h options start (sampled g k clk d duts)

stopped-injective :
    {S D : Type 0} {l l' : Lockstep S} {d d' : D}
    → stopped l d ≡ stopped l' d'
    → (l ≡ l') × (d ≡ d')
stopped-injective e = (cc, cc)

module _ (h : Hart) (g : Design) (options : Options) (cycles : ℕ) where
  halt-Reason :
      (half : ℕ) (d : g.State) (l : Lockstep h.State)
      → continues h g options cycles half d l ≡ false
      → Reason g cycles half d l
  unfolding continues cycles_left
  halt-Reason half d l e = elim (Bool-cases (g.finished d)) [
    | inl done ↦ has_finished done
    | inr on ↦ elim (Bool-cases l.got_finish) [
      | inl done ↦ was_asked done
      | inr quiet ↦ elim (Bool-cases l.failed) [
        | inl bad ↦ has_failed bad
        | inr good ↦ at_limit (ground (arith, e)) (ground (arith, e))
      ]
    ]
  ]

  observe-Run :
      (start l l' : Lockstep h.State) (clk : Bool) (d : g.State) (duts : List Dut)
      → Run h options start duts l
      → (l.failed ≡ false)
      → (l.got_finish ≡ false)
      → observe h g options cycles clk d l ≡ ok l'
      → Run h options start (if clk then g.ports d ∷ duts else duts) l'
  unfolding observe
  observe-Run start l l' true d duts run f n e = edge (g.ports d) run f n e
  observe-Run start l l' false d duts run f n e = rw (← ok-injective e) run

  -- One pass more in front.
  Halted-pass :
      (start l l' : Lockstep h.State) (half : ℕ) (clk : Bool) (d d' : g.State) (duts : List Dut)
      (n : ℕ)
      → (g.finished d ≡ false)
      → ((cycles ≡ 0) ⊎ ((cycles < 2 ^ 63) × (half < 2 * cycles)))
      → Quiet h options start duts
      → Halted h g options cycles start
          (half + 1)
          (not clk)
          (g.eval (not clk) true d)
          (if not clk then g.ports (g.eval (not clk) true d) ∷ duts else duts)
          l'
          d'
          n
      → Halted h g options cycles start half clk d duts l' d' (suc n)
  Halted-pass start l l' half clk d d' duts n on below quiet v = record {
    design = v.design;
    run = v.run;
    reason = let next : half + 1 + n ≡ half + suc n = omega arith in rw (← next) v.reason;
    earlier = before;
  }
    where
      before :
          (k : ℕ)
          → k < suc n
          → (g.finished (evaluated g k clk d) ≡ false)
            × ((cycles ≡ 0) ⊎ ((cycles < 2 ^ 63) × (half + k < 2 * cycles)))
            × Quiet h options start (sampled g k clk d duts)
      before zero e = (on, ground (arith, below), quiet)
      before (suc k) e =
          let rest = v.earlier k (omega arith) in (rest.0, ground (arith, rest.1), rest.2)

  stopped-Halted_from :
      (fuel half : ℕ) (clk : Bool) (d d' : g.State) (start l l' : Lockstep h.State)
      (duts : List Dut)
      → Run h options start duts l
      → loop h g options cycles fuel half clk d l ≡ stopped l' d'
      → (n : ℕ) × Halted h g options cycles start half clk d duts l' d' n
  stopped-Halted_from zero half clk d d' start l l' duts run e = unfold loop in cc e
  stopped-Halted_from (suc fuel) half clk d d' start l l' duts run e =
      elim (Bool-cases (continues h g options cycles half d l)) [
        | inr halt ↦
            let same =
              stopped-injective (sym (loop-stop h g options cycles fuel half clk d l halt) ∙ e) in
            (
              zero,
              record {
                design = sym same.1;
                run = rw (← same.0) run;
                reason =
                    let start_pass : half + 0 ≡ half = omega arith in
                    rw (start_pass, ← same.0, ← same.1) (halt-Reason half d l halt);
                earlier = λ k none. absurd (omega arith);
              },
            )
        | inl go ↦
            elim (Result-cases (observe h g options cycles (not clk) (g.eval (not clk) true d) l)) [
              | inr (err, failed) ↦
                  cc (sym (loop-abort h g options cycles fuel half clk d l err go failed) ∙ e)
              | inl (mid, done) ↦ elim (Bool-cases (ltb (half + 1) (2 ^ 63))) [
                | inr over ↦ cc (
                    sym (
                      loop-overflow h g options cycles fuel half clk d l mid go done
                        (ground (arith, over)))
                    ∙ e)
                | inl counts ↦
                    let flags = continues-flags h g options cycles half d l go in
                    let rest =
                      stopped-Halted_from fuel (half + 1) (not clk) (g.eval (not clk) true d) d'
                        start mid l' _
                        (observe-Run start l mid (not clk) (g.eval (not clk) true d) duts run
                          flags.0 flags.1 done)
                        (sym (
                            loop-next h g options cycles fuel half clk d l mid go done
                              (ground (arith, counts)))
                          ∙ e) in
                    (
                      suc rest.0,
                      Halted-pass start l l' half clk d d' duts rest.0 flags.2 flags.3
                          (record { state = l; run = run; unfailed = flags.0; unasked = flags.1 })
                          rest.1,
                    )
              ]
            ]
      ]

  -- A loop that ends by its condition ends after a number of passes that is determined by the
  -- design and by the run of the harness over the ports that the design had behind the evaluations
  -- with the clock high: the first at which the design has called $finish, the harness has asked to
  -- finish or found a mismatch, or the cycle limit is reached.
  pub stopped-Halted :
      (fuel : ℕ) (clk : Bool) (d d' : g.State) (start l : Lockstep h.State)
      → loop h g options cycles fuel 0 clk d start ≡ stopped l d'
      → (n : ℕ) × Halted h g options cycles start 0 clk d [] l d' n
  stopped-Halted fuel clk d d' start l = stopped-Halted_from fuel 0 clk d d' start start l [] begun
