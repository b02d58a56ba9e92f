-- ===== src/Testbench/Loop/Liveness.antt =====
-- The loop ends when the design asks for it.
use mints_riscv_cpu.Base.{
  ℕ, zero, suc, ◌+◌, Bool, true, false, not, ◌≡◌, ◌≢◌, arith, inl, inr, Bool-cases, ltb, ◌^◌, ◌<◌,
}
use mints_riscv_cpu.Reference.Result.{Result-cases}
use mints_riscv_cpu.Reference.Hart.{Hart}
use mints_riscv_cpu.Testbench.Harness.{Options, Lockstep}
use mints_riscv_cpu.Testbench.Loop.{Design, unfinished, overflowed, loop, continues, observe}
use mints_riscv_cpu.Testbench.Loop.Runs.{loop-stop, loop-abort, loop-next, loop-overflow}

-- The design after `n` more evaluations out of reset, where the clock was `clk`.
abbrev pub evaluated : (g : Design) → ℕ → Bool → g.State → g.State
evaluated g zero clk d = d
evaluated g (suc n) clk d = evaluated g n (not clk) (g.eval (not clk) true d)

module _ (h : Hart) (g : Design) (options : Options) (cycles : ℕ) where
  finished-continues :
      (half : ℕ) (d : g.State) (l : Lockstep h.State)
      → g.finished d ≡ true
      → continues h g options cycles half d l ≡ false
  unfolding continues
  finished-continues half d l finished = ground (arith, finished)

  -- If the design calls $finish in one of the first `n` evaluations, in that it has finished after
  -- `n` of them, the loop ends within `n` + 1 passes, also without a cycle limit.
  pub finished-loop-ne-unfinished :
      (n half : ℕ) (clk : Bool) (d : g.State) (l : Lockstep h.State)
      → g.finished (evaluated g n clk d) ≡ true
      → loop h g options cycles (suc n) half clk d l ≢ unfinished
  finished-loop-ne-unfinished zero half clk d l finished =
      rw (loop-stop h g options cycles zero half clk d l (finished-continues half d l finished))
        (λ e. cc)
  finished-loop-ne-unfinished (suc n) half clk d l finished =
      elim (Bool-cases (continues h g options cycles half d l)) [
        | inr halt ↦ rw (loop-stop h g options cycles (suc n) half clk d l halt) (λ e. cc)
        | inl go ↦
            elim (Result-cases (observe h g options cycles (not clk) (g.eval (not clk) true d) l)) [
              | inr (e, failed) ↦
                  rw (loop-abort h g options cycles (suc n) half clk d l e go failed) (λ e'. cc)
              | inl (l', done) ↦ elim (Bool-cases (ltb (half + 1) (2 ^ 63))) [
                | inr over ↦
                    rw
                      (loop-overflow h g options cycles (suc n) half clk d l l' go done
                        (ground (arith, over)))
                      (λ e. cc)
                | inl counts ↦
                    rw
                      (loop-next h g options cycles (suc n) half clk d l l' go done
                        (ground (arith, counts)))
                      (finished-loop-ne-unfinished n (half + 1) (not clk) (g.eval (not clk) true d)
                        l' finished)
              ]
            ]
      ]

  -- And it does not count past a `long long` if `n` is small enough.
  pub finished-loop-ne-overflowed :
      (n half : ℕ) (clk : Bool) (d : g.State) (l : Lockstep h.State)
      → g.finished (evaluated g n clk d) ≡ true
      → half + n < 2 ^ 63
      → loop h g options cycles (suc n) half clk d l ≢ overflowed
  finished-loop-ne-overflowed zero half clk d l finished few =
      rw (loop-stop h g options cycles zero half clk d l (finished-continues half d l finished))
        (λ e. cc)
  finished-loop-ne-overflowed (suc n) half clk d l finished few =
      elim (Bool-cases (continues h g options cycles half d l)) [
        | inr halt ↦ rw (loop-stop h g options cycles (suc n) half clk d l halt) (λ e. cc)
        | inl go ↦
            elim (Result-cases (observe h g options cycles (not clk) (g.eval (not clk) true d) l)) [
              | inr (e, failed) ↦
                  rw (loop-abort h g options cycles (suc n) half clk d l e go failed) (λ e'. cc)
              | inl (l', done) ↦
                  rw (loop-next h g options cycles (suc n) half clk d l l' go done (omega arith)) (
                    finished-loop-ne-overflowed n (half + 1) (not clk) (g.eval (not clk) true d) l'
                      finished (omega arith))
            ]
      ]
