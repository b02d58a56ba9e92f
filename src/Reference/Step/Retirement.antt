-- ===== src/Reference/Step/Retirement.antt =====
-- `WhisperRef::step` against the runs of hart steps that it stands for.
use mints_riscv_cpu.Base.{
  ℕ, zero, suc, ◌+◌, ◌-◌, ◌<◌, true, false, ◌≡◌, ◌↔◌, sym, ap, ◌∙◌, arith, inl, inr, Bool-cases,
}
use mints_riscv_cpu.Reference.Result.{>>=-eq-ok, ok, fail, too_many_non_retiring, ok-injective}
use mints_riscv_cpu.Reference.Commit.{RefCommit, RtlRetire}
use mints_riscv_cpu.Reference.Hart.{Hart}
use mints_riscv_cpu.Reference.Trap.{Attempt, non_retiring_event}
use mints_riscv_cpu.Reference.Step.{attempt_step, retire, capture, step}

module _ (h : Hart) (r : RtlRetire) where
  -- `n` hart steps in a row, each of which enters a trap and retires no instruction.
  pub data Skips (s : h.State) : ℕ → h.State → Type 0 where
    stay : Skips s 0 s
    skip :
        {n : ℕ} {t : h.State} (a : Attempt h.State)
        → Skips s n t
        → attempt_step h r t ≡ ok a
        → non_retiring_event a ≡ true
        → Skips s (suc n) a.state

  -- After fewer than `bound` such steps, the hart step `last` retires an instruction.
  pub record Retires (bound : ℕ) (s : h.State) (last : Attempt h.State) : Type 0 where
    pub skipped : ℕ
    pub at_last : h.State
    pub few : skipped < bound
    pub skips : Skips s skipped at_last
    pub attempted : attempt_step h r at_last ≡ ok last
    pub retiring : non_retiring_event last ≡ false

  Skips-first :
      {s : h.State} (a : Attempt h.State)
      → attempt_step h r s ≡ ok a
      → non_retiring_event a ≡ true
      → {n : ℕ} {t : h.State} → Skips a.state n t
      → Skips s (suc n) t
  Skips-first a made trap stay = skip a stay made trap
  Skips-first a made trap (skip b before made' trap') =
      skip b (Skips-first a made trap before) made' trap'

  attempt-made :
      (bound : ℕ) (s : h.State) {x : RefCommit × h.State}
      → retire h (suc bound) r s ≡ ok x
      → (a : Attempt h.State) × (attempt_step h r s ≡ ok a)
  unfolding retire
  attempt-made bound s e = let (a, made, rest) = >>=-eq-ok (attempt_step h r s) _ e in (a, made)

  retire-skip :
      (bound : ℕ) (s : h.State) (a : Attempt h.State)
      → attempt_step h r s ≡ ok a
      → non_retiring_event a ≡ true
      → retire h (suc bound) r s ≡ retire h bound r a.state
  unfolding retire
  retire-skip bound s a made trap = rw made (ground arith)

  retire-stop :
      (bound : ℕ) (s : h.State) (a : Attempt h.State)
      → attempt_step h r s ≡ ok a
      → non_retiring_event a ≡ false
      → retire h (suc bound) r s ≡ ok (a.result, a.state)
  unfolding retire
  retire-stop bound s a made done = rw made (ground arith)

  Retires-later :
      {bound : ℕ} {s : h.State} {last : Attempt h.State} (a : Attempt h.State)
      → attempt_step h r s ≡ ok a
      → non_retiring_event a ≡ true
      → Retires bound a.state last
      → Retires (suc bound) s last
  Retires-later a made trap later = record {
    skipped = suc later.skipped;
    at_last = later.at_last;
    few = omega (arith, later.few);
    skips = Skips-first a made trap later.skips;
    attempted = later.attempted;
    retiring = later.retiring;
  }

  retire-Retires :
      (bound : ℕ) (s : h.State) (x : RefCommit × h.State)
      → retire h bound r s ≡ ok x
      → (last : Attempt h.State) × Retires bound s last × (x ≡ (last.result, last.state))
  retire-Retires zero s x e = unfold retire in cc e
  retire-Retires (suc bound) s x e =
      let (a, made) = attempt-made bound s e in
      elim (Bool-cases (non_retiring_event a)) [
        | inl trap ↦
            let (last, later, same) =
              retire-Retires bound a.state x (sym (retire-skip bound s a made trap) ∙ e) in
            (last, Retires-later a made trap later, same)
        | inr done ↦ (
          a,
          record {
            skipped = 0;
            at_last = s;
            few = omega arith;
            skips = stay;
            attempted = made;
            retiring = done;
          },
          ok-injective (sym e ∙ retire-stop bound s a made done),
        )
      ]

  -- The loop over a run that is known: it goes on from where the run ends.
  retire-Skips :
      {s : h.State} (m left : ℕ) {n : ℕ} {t : h.State}
      → Skips s n t
      → m ≡ n + left
      → retire h m r s ≡ retire h left r t
  retire-Skips {s} m left stay e = ap (λ k. retire h k r s) (omega arith)
  retire-Skips m left (skip a before made trap) e =
      retire-Skips m (suc left) before (omega arith) ∙ retire-skip left _ a made trap

  retire_of_Retires :
      (bound : ℕ) (s : h.State) (last : Attempt h.State)
      → Retires bound s last
      → retire h bound r s ≡ ok (last.result, last.state)
  retire_of_Retires bound s last run =
      let left = bound - suc run.skipped in
      retire-Skips bound (suc left) run.skips (omega (arith, run.few))
      ∙ retire-stop left run.at_last last run.attempted run.retiring

  -- `step` returns exactly when the hart makes fewer than 16 steps that only enter a trap and then
  -- one that retires, and when what follows the loop accepts that last step; its result is what
  -- `capture` makes of it.
  pub step_iff :
      (s : h.State) (x : RefCommit × h.State)
      → (step h r s ≡ ok x) ↔ (
          (last : Attempt h.State) × Retires 16 s last
          × (capture h r last.result last.state ≡ ok x))
  unfolding step
  step_iff s x = (
    λ returns.
        let (retired, e, captured) = >>=-eq-ok (retire h 16 r s) _ returns in
        let (last, run, same) = retire-Retires 16 s retired e in (last, run, rw same at captured),
    λ (last, run, captured). rw (retire_of_Retires 16 s last run) captured,
  )

  -- Sixteen hart steps in a row that each enter a trap and retire nothing make `step` fail with the
  -- error for too many of them.
  pub step_too_many : {s t : h.State} → Skips s 16 t → step h r s ≡ fail too_many_non_retiring
  unfolding step retire
  step_too_many {s} {t} run = rw (retire-Skips 16 0 run (omega arith))
