-- ===== src/Testbench/Main/Exits.antt =====
-- What the exit status of the program says.
use mints_riscv_cpu.Base.{
  ℕ, ◌≡◌, ◌⊎◌, inl, inr, refl, sym, ap, ◌∙◌, Bool, false, not, ◌&&◌, List, [], Option, Option-cases,
  none, some, Text,
}
use mints_riscv_cpu.Reference.Result.{Error, ok, fail, >>=-eq-ok, Result-cases}
use mints_riscv_cpu.Reference.Commit.{WhisperConfig}
use mints_riscv_cpu.Reference.Hart.{Hart}
use mints_riscv_cpu.Reference.Config.{construct}
use mints_riscv_cpu.Testbench.Harness.{Lockstep, initial}
use mints_riscv_cpu.Testbench.Loop.{
  Design, Outcome, unfinished, aborted, overflowed, stopped, loop, exit_status,
}
use mints_riscv_cpu.Testbench.Loop.Passes.{sampled, Halted}
use mints_riscv_cpu.Testbench.Loop.Verdict.{Verdict, exit_status-Verdict}
use mints_riscv_cpu.Testbench.Setup.{
  stop_options, environment_config, create_whisper_reference, reset_design,
}
use mints_riscv_cpu.Testbench.Environment.{Environment, with_memory_files, dbg_addr}
use mints_riscv_cpu.Testbench.Environment.Files.{without-with_memory_files}
use mints_riscv_cpu.Testbench.Main.{
  exited, running, undefined, exit_of, Arguments, positional_args, arguments, run_lockstep, main,
}

exited-injective : {m n : ℕ} → exited m ≡ exited n → m ≡ n
exited-injective e = cc

module _ (h : Hart) (g : Design) (test_mode : Bool) (env : Environment) (args : List Text) where
  -- A comparison that took place, by the loop that started in the design `d`: the reference was
  -- constructed from the environment, and the status has the meaning of the ports that the design
  -- had on the rising edges of the passes that the loop made.
  pub record Compared (cycles : ℕ) (d : g.State) (status : ℕ) : Type 0 where
    pub config : WhisperConfig
    pub w : h.State
    pub configures : environment_config env ≡ ok config
    pub constructs : construct h config ≡ ok w
    pub passes : ℕ
    pub final : Lockstep h.State
    pub design : g.State
    pub halted : Halted h g (stop_options args) cycles (initial w) 0 false d [] final design passes
    pub verdict :
        Verdict h
          (stop_options args)
          (test_mode && not (g.ports design).test_success)
          (sampled g passes false d [])
          w
          final.whisper
          status

  -- The two ways in which `main` gives up before the loop: its arguments, or the reference.
  pub data Refused (absolute : Text → Option Text) : Type 0 where
    no_arguments : arguments absolute (positional_args args) ≡ none → Refused absolute
    no_reference : (e : Error) → create_whisper_reference h env ≡ fail e → Refused absolute

  exit_of-exited :
      (o : Outcome h.State g.State) (status : ℕ)
      → exit_of g test_mode o ≡ exited status
      → (l : Lockstep h.State) × (d : g.State) × (o ≡ stopped l d)
        × (exit_status test_mode l (g.ports d) ≡ status)
  unfolding exit_of
  exit_of-exited unfinished status e = cc
  exit_of-exited (aborted err) status e = cc
  exit_of-exited overflowed status e = cc
  exit_of-exited (stopped l d) status e = (l, d, refl, cc)

  pub exit_of-running :
      (o : Outcome h.State g.State) → exit_of g test_mode o ≡ running → o ≡ unfinished
  unfolding exit_of
  exit_of-running unfinished e = refl
  exit_of-running (aborted err) e = cc
  exit_of-running overflowed e = cc
  exit_of-running (stopped l d) e = cc

  pub exit_of-undefined :
      (o : Outcome h.State g.State) → exit_of g test_mode o ≡ undefined → o ≡ overflowed
  unfolding exit_of
  exit_of-undefined unfinished e = cc
  exit_of-undefined (aborted err) e = cc
  exit_of-undefined overflowed e = refl
  exit_of-undefined (stopped l d) e = cc

  pub run_lockstep-create :
      (cycles fuel : ℕ) (d : g.State) (w : h.State)
      → create_whisper_reference h env ≡ ok w
      → run_lockstep h g test_mode env args cycles fuel d
        ≡ exit_of g test_mode (loop h g (stop_options args) cycles fuel 0 false d (initial w))
  unfolding run_lockstep
  run_lockstep-create cycles fuel d w e = rw (run_lockstep, e) refl

  pub run_lockstep-refused :
      (cycles fuel : ℕ) (d : g.State) (err : Error)
      → create_whisper_reference h env ≡ fail err
      → run_lockstep h g test_mode env args cycles fuel d ≡ exited 1
  unfolding run_lockstep
  run_lockstep-refused cycles fuel d err e = rw (run_lockstep, e) refl

  run_lockstep-Compared :
      (cycles fuel : ℕ) (d : g.State) (w : h.State) (status : ℕ)
      → create_whisper_reference h env ≡ ok w
      → run_lockstep h g test_mode env args cycles fuel d ≡ exited status
      → Compared cycles d status
  unfolding create_whisper_reference
  run_lockstep-Compared cycles fuel d w status created e =
      let (config, e1, e2) = >>=-eq-ok (environment_config env) (construct h) created in
      let (l, d', ended, same) =
        exit_of-exited (loop h g (stop_options args) cycles fuel 0 false d (initial w)) status
          (sym (run_lockstep-create cycles fuel d w created) ∙ e) in
      let (passes, halted, verdict) =
        exit_status-Verdict h g (stop_options args) cycles fuel test_mode false d d' w l ended in
      record {
        config = config;
        w = w;
        configures = e1;
        constructs = e2;
        passes = passes;
        final = l;
        design = d';
        halted = halted;
        verdict = rw (← same) verdict;
      }

  run_lockstep-cases :
      (absolute : Text → Option Text) (cycles fuel : ℕ) (d : g.State) (status : ℕ)
      → run_lockstep h g test_mode env args cycles fuel d ≡ exited status
      → (Refused absolute × (status ≡ 1)) ⊎ Compared cycles d status
  run_lockstep-cases absolute cycles fuel d status e =
      elim (Result-cases (create_whisper_reference h env)) [
        | inr (err, failed) ↦ inl (
          no_reference err failed,
          sym (exited-injective (sym (run_lockstep-refused cycles fuel d err failed) ∙ e)),
        )
        | inl (w, created) ↦ inr (run_lockstep-Compared cycles fuel d w status created e)
      ]

module _ (h : Hart) (g : Design) (test_mode : Bool) (absolute : Text → Option Text)
    (create : Environment → ℕ → g.State) (env : Environment) (args : List Text) where
  -- The design after its reset.
  abbrev pub started_design : Arguments → g.State
  started_design a =
      let files = with_memory_files env a.rom_file_path a.ram_file_path in
      reset_design g (create files (dbg_addr files))

  pub main-arguments :
      (a : Arguments) (fuel : ℕ)
      → arguments absolute (positional_args args) ≡ some a
      → main h g test_mode absolute create env args fuel
        ≡ (run_lockstep h g test_mode env args a.cycles fuel (started_design a), env)
  unfolding main
  main-arguments a fuel e =
      let same = without-with_memory_files env a.rom_file_path a.ram_file_path in
      rw (main, e, same) refl

  main-refused :
      (fuel : ℕ)
      → arguments absolute (positional_args args) ≡ none
      → main h g test_mode absolute create env args fuel ≡ (exited 1, env)
  unfolding main
  main-refused fuel e = rw (main, e) refl

  -- If `main` exits, it leaves the environment as it was, and it exits with 1 before it compares
  -- anything, for want of its arguments or of the reference, or after the loop over the design that
  -- it has reset, from a reference that was constructed from the environment, with a status that
  -- means what it should for the ports of that design.
  pub main-Compared :
      (fuel status : ℕ)
      → (main h g test_mode absolute create env args fuel).0 ≡ exited status
      → ((main h g test_mode absolute create env args fuel).1 ≡ env)
        × ((Refused h g test_mode env args absolute × (status ≡ 1))
            ⊎ ((a : Arguments) × (arguments absolute (positional_args args) ≡ some a)
                × Compared h g test_mode env args a.cycles (started_design a) status))
  main-Compared fuel status e = elim (Option-cases (arguments absolute (positional_args args))) [
    | inl refused ↦
        let same = main-refused fuel refused in
        (
          ap (λ r. r.1) same,
          inl (no_arguments refused, sym (exited-injective (sym (ap (λ r. r.0) same) ∙ e))),
        )
    | inr (a, given) ↦
        let same = main-arguments a fuel given in
        (
          ap (λ r. r.1) same,
          elim (run_lockstep-cases h g test_mode env args absolute a.cycles fuel (started_design a)
              status (sym (ap (λ r. r.0) same) ∙ e)) [
                | inl refused ↦ inl refused
                | inr done ↦ inr (a, given, done)
              ],
        )
  ]
