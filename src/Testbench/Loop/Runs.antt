-- ===== src/Testbench/Loop/Runs.antt =====
-- Runs of rising edges, and the termination of the loop.
use mints_riscv_cpu.Base.{
  ℕ, zero, suc, ◌+◌, ◌-◌, ◌*◌, ◌≤◌, ◌<◌, ◌^◌, Bool, true, false, not, ◌≡◌, ◌≢◌, arith, List, [],
  ◌∷◌, inl, inr, Bool-cases, ◌⊎◌,
}
use mints_riscv_cpu.Reference.Result.{Result-cases, Error, ok, fail}
use mints_riscv_cpu.Reference.Hart.{Hart}
use mints_riscv_cpu.Testbench.Dut.{Dut}
use mints_riscv_cpu.Testbench.Harness.{Options, Lockstep, rising_edge}
use mints_riscv_cpu.Testbench.Loop.{
  Design, unfinished, aborted, overflowed, stopped, continues, cycles_left, observe, loop,
}

-- A run of rising edges whose ports read `duts`, the latest first. Each edge is observed only while
-- nothing has failed and the harness has not asked to finish.
pub data Run (h : Hart) (options : Options) (start : Lockstep h.State)
    : List Dut → Lockstep h.State → Type 0 where
  begun : Run h options start [] start
  edge :
      {duts : List Dut} {l l' : Lockstep h.State} (dut : Dut)
      → Run h options start duts l
      → l.failed ≡ false
      → l.got_finish ≡ false
      → rising_edge h options dut l ≡ ok l'
      → Run h options start (dut ∷ duts) l'

module _ (h : Hart) (g : Design) (options : Options) (cycles : ℕ) where
  pub continues-flags :
      (half : ℕ) (d : g.State) (l : Lockstep h.State)
      → continues h g options cycles half d l ≡ true
      → (l.failed ≡ false)
        × (l.got_finish ≡ false)
        × (g.finished d ≡ false)
        × ((cycles ≡ 0) ⊎ ((cycles < 2 ^ 63) × (half < 2 * cycles)))
  unfolding continues cycles_left
  continues-flags half d l e = ground arith

  pub loop-stop :
      (fuel half : ℕ) (clk : Bool) (d : g.State) (l : Lockstep h.State)
      → continues h g options cycles half d l ≡ false
      → loop h g options cycles (suc fuel) half clk d l ≡ stopped l d
  unfolding loop
  loop-stop fuel half clk d l e = ground arith

  pub loop-abort :
      (fuel half : ℕ) (clk : Bool) (d : g.State) (l : Lockstep h.State) (e : Error)
      → continues h g options cycles half d l ≡ true
      → observe h g options cycles (not clk) (g.eval (not clk) true d) l ≡ fail e
      → loop h g options cycles (suc fuel) half clk d l ≡ aborted e
  unfolding loop
  loop-abort fuel half clk d l e go failed = ground arith

  pub loop-next :
      (fuel half : ℕ) (clk : Bool) (d : g.State) (l l' : Lockstep h.State)
      → continues h g options cycles half d l ≡ true
      → observe h g options cycles (not clk) (g.eval (not clk) true d) l ≡ ok l'
      → half + 1 < 2 ^ 63
      → loop h g options cycles (suc fuel) half clk d l
        ≡ loop h g options cycles fuel (half + 1) (not clk) (g.eval (not clk) true d) l'
  unfolding loop
  loop-next fuel half clk d l l' go done counts = ground arith

  pub loop-overflow :
      (fuel half : ℕ) (clk : Bool) (d : g.State) (l l' : Lockstep h.State)
      → continues h g options cycles half d l ≡ true
      → observe h g options cycles (not clk) (g.eval (not clk) true d) l ≡ ok l'
      → 2 ^ 63 ≤ half + 1
      → loop h g options cycles (suc fuel) half clk d l ≡ overflowed
  unfolding loop
  loop-overflow fuel half clk d l l' go done counts = ground arith

  -- From any pass on.
  loop_ends :
      (fuel half : ℕ) (clk : Bool) (d : g.State) (l : Lockstep h.State)
      → cycles ≢ 0
      → (cycles < 2 ^ 62) ⊎ (2 ^ 63 ≤ cycles)
      → half ≤ 2 * cycles
      → 2 * cycles - half < fuel
      → (loop h g options cycles fuel half clk d l ≢ unfinished)
        × (loop h g options cycles fuel half clk d l ≢ overflowed)
  loop_ends zero half clk d l limited counts within enough = absurd (omega arith)
  loop_ends (suc fuel) half clk d l limited counts within enough =
      elim (Bool-cases (continues h g options cycles half d l)) [
        | inr halt ↦ rw (loop-stop fuel half clk d l halt) (λ e. cc, λ e. cc)
        | inl go ↦
            elim (Result-cases (observe h g options cycles (not clk) (g.eval (not clk) true d) l)) [
              | inr (e, failed) ↦ rw (loop-abort fuel half clk d l e go failed) (λ e'. cc, λ e'. cc)
              | inl (l', done) ↦
                  let flags = continues-flags half d l go in
                  rw (loop-next fuel half clk d l l' go done (omega (arith, flags.3, counts))) (
                    loop_ends fuel (half + 1) (not clk) (g.eval (not clk) true d) l' limited counts
                      (omega (arith, flags.3)) (omega (arith, flags.3)))
            ]
      ]

  -- With a cycle limit that is below 2 ^ 62, or so large that the cast makes it negative, the loop
  -- ends, by its condition or by an exception, before it has made one pass more than twice the
  -- number of cycles, and does not count past a `long long`.
  pub loop-ne-unfinished :
      (clk : Bool) (d : g.State) (l : Lockstep h.State)
      → cycles ≢ 0
      → (cycles < 2 ^ 62) ⊎ (2 ^ 63 ≤ cycles)
      → (loop h g options cycles (2 * cycles + 1) 0 clk d l ≢ unfinished)
        × (loop h g options cycles (2 * cycles + 1) 0 clk d l ≢ overflowed)
  loop-ne-unfinished clk d l limited counts =
      loop_ends (2 * cycles + 1) 0 clk d l limited counts (omega arith) (omega arith)
