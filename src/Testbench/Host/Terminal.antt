-- ===== src/Testbench/Host/Terminal.antt =====
-- What is left of the terminal mode when the testbench ends.
use mints_riscv_cpu.Base.{
  ℕ, ◌≡◌, refl, sym, ◌∙◌, arith, true, false, none, some, [], ◌∷◌, Option-cases, Bool-cases, inl,
  inr,
}
use mints_riscv_cpu.Testbench.Host.{
  Termios, System, Process, sigint, sigterm, sigquit, restore_termios_setting, sighandler,
  return_from_main, raw_setting, set_file_flags, set_raw, set_nonblocking,
}

-- Before `set_nonblocking`.
pub record IsFresh {S : Type 0} (p : Process S) : Type 0 where
  pub unchanged : p.termios_changed ≡ false
  pub not_at_exit : p.at_exit ≡ false
  pub unhandled : p.handled ≡ []

-- How the terminal is left in the state `last` of the system, by a process that was `p` before
-- `set_nonblocking` and `q` after it: nothing was changed; or the settings that were read at first
-- are given back by one more call, for a process that handles the three signals; or that call fails.
pub data Left (y : System) (p q : Process y.State) (last : y.State) : Type 0 where
  untouched : q.system ≡ p.system → q.handled ≡ [] → last ≡ p.system → Left y p q last
  restored :
      (old : Termios)
      → y.tcgetattr p.system ≡ some old
      → q.handled ≡ sigint ∷ sigterm ∷ sigquit ∷ []
      → y.tcsetattr q.system old ≡ some last
      → Left y p q last
  refused :
      (old : Termios)
      → y.tcgetattr p.system ≡ some old
      → q.handled ≡ sigint ∷ sigterm ∷ sigquit ∷ []
      → y.tcsetattr q.system old ≡ none
      → last ≡ q.system
      → Left y p q last

module _ (y : System) where
  -- The process knows how the terminal was at the time of `s`, if it has changed it.
  record Remembers (s : y.State) (p : Process y.State) : Type 0 where
    same_exit : p.at_exit ≡ p.termios_changed
    unchanged : p.termios_changed ≡ false → (p.system ≡ s) × (p.handled ≡ [])
    changed :
        p.termios_changed ≡ true
        → (y.tcgetattr s ≡ some p.old_setting) × (p.handled ≡ sigint ∷ sigterm ∷ sigquit ∷ [])

  set_file_flags-Remembers :
      (s : y.State) (p : Process y.State)
      → Remembers s p
      → p.termios_changed ≡ true
      → Remembers s (set_file_flags y p)
  unfolding set_file_flags
  set_file_flags-Remembers s p v changed = record {
    same_exit = ground (arith, v.same_exit);
    unchanged = λ e. ground (arith, changed);
    changed = λ e. ground (arith, v.changed changed);
  }

  set_raw-Remembers :
      (old : Termios) (p : Process y.State)
      → IsFresh p
      → y.tcgetattr p.system ≡ some old
      → Remembers p.system (set_raw y old p)
  unfolding set_raw
  set_raw-Remembers old p fresh read =
      elim (Option-cases (y.tcsetattr p.system (raw_setting y old))) [
        | inl failed ↦
            rw (set_raw, failed)
              (record {
                same_exit = fresh.not_at_exit ∙ sym fresh.unchanged;
                unchanged = λ e. (refl, fresh.unhandled);
                changed = λ e. cc fresh.unchanged;
              })
        | inr (s, accepted) ↦
            rw (set_raw, accepted)
              (set_file_flags-Remembers p.system _
                (record { same_exit = refl; unchanged = λ e. cc; changed = λ e. (read, refl) })
                refl)
      ]

  set_nonblocking-Remembers :
      (p : Process y.State) → IsFresh p → Remembers p.system (set_nonblocking y p)
  unfolding set_nonblocking
  set_nonblocking-Remembers p fresh =
      let same : Remembers p.system p = record {
        same_exit = fresh.not_at_exit ∙ sym fresh.unchanged;
        unchanged = λ e. (refl, fresh.unhandled);
        changed = λ e. cc fresh.unchanged;
      } in
      elim (Bool-cases (y.isatty p.system)) [
        | inr other ↦ rw (set_nonblocking, other) same
        | inl terminal ↦ elim (Option-cases (y.tcgetattr p.system)) [
          | inl failed ↦ rw (set_nonblocking, terminal, failed) same
          | inr (old, read) ↦
              rw (set_nonblocking, terminal, read) (set_raw-Remembers old p fresh read)
        ]
      ]

  restore-Left :
      (p q : Process y.State)
      → Remembers p.system q
      → Left y p q (restore_termios_setting y q).system
  unfolding restore_termios_setting
  restore-Left p q v = elim (Bool-cases q.termios_changed) [
    | inr same ↦
        let kept = v.unchanged same in untouched kept.0 kept.1 (ground (arith, same, kept.0))
    | inl changed ↦
        let kept = v.changed changed in
        elim (Option-cases (y.tcsetattr q.system q.old_setting)) [
          | inl failed ↦
              refused q.old_setting kept.0 kept.1 failed (ground (arith, changed, failed))
          | inr (t, accepted) ↦
              restored q.old_setting kept.0 kept.1 (ground (arith, changed, accepted))
        ]
  ]

  return_from_main-restore :
      (s : y.State) (p : Process y.State)
      → Remembers s p
      → (return_from_main y p).system ≡ (restore_termios_setting y p).system
  unfolding return_from_main restore_termios_setting
  return_from_main-restore s p v = elim (Bool-cases p.termios_changed) [
    | inr same ↦ ground (arith, same, v.same_exit)
    | inl changed ↦ ground (arith, changed, v.same_exit)
  ]

  -- However far `set_nonblocking` got, and whatever the system calls do: the terminal is left
  -- untouched; or the process handles SIGINT, SIGTERM and SIGQUIT, and its last call, on a return
  -- from `main` as after a signal, gives back the settings that it had read before it changed them,
  -- unless that call fails. After a signal the exit status is the signal's number.
  pub set_nonblocking-Left :
      (p : Process y.State) (signum : ℕ)
      → IsFresh p
      → let q = set_nonblocking y p in
        Left y p q (return_from_main y q).system
        × Left y p q (sighandler y signum q).0.system
        × ((sighandler y signum q).1 ≡ signum)
  unfolding sighandler
  set_nonblocking-Left p signum fresh =
      let v = set_nonblocking-Remembers p fresh in
      let q = set_nonblocking y p in
      let left = restore-Left p q v in (rw (return_from_main-restore p.system q v) left, left, refl)
