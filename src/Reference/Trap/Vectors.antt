-- ===== src/Reference/Trap/Vectors.antt =====
-- Where a trap goes, in the terms of the privileged architecture, and the steps that go there.
use mints_riscv_cpu.Base.{
  ℕ, ◌+◌, ◌-◌, ◌*◌, ◌%◌, ◌^◌, ◌<◌, Bool, true, false, ◌≡◌, ◌≢◌, ◌⊎◌, refl, sym, ap, arith, Option,
  none, some, inl, inr, if◌then◌else◌, Bool-cases,
}
use mints_riscv_cpu.Bits.{bit_and-low, bit_and-clear_two}
use mints_riscv_cpu.Reference.Result.{Result, Error, ok, fail, >>=-eq-ok, ok-injective}
use mints_riscv_cpu.Reference.Commit.{RefCommit}
use mints_riscv_cpu.Reference.Hart.{Hart, mtvec, stvec}
use mints_riscv_cpu.Reference.Interrupts.{synchronize_interrupts}
use mints_riscv_cpu.Reference.Trap.{
  Attempt, trap_target, entered, non_retiring_event, observe, step_non_retiring_trap,
}

-- Of a 64-bit vector the mode is the low two bits. An interrupt in mode 1 goes to the base plus four
-- bytes for each cause, modulo 2 ^ 64, everything else to the base.
pub trap_target_lem :
    (cause tvec : ℕ)
    → tvec < 2 ^ 64
    → (trap_target false cause tvec ≡ tvec - tvec % 4)
      × (tvec % 4 ≡ 1 → trap_target true cause tvec ≡ (tvec - 1 + 4 * cause) % 2 ^ 64)
      × (tvec % 4 ≢ 1 → trap_target true cause tvec ≡ tvec - tvec % 4)
unfolding trap_target
trap_target_lem cause tvec fits = ground (arith, bit_and-clear_two tvec, bit_and-low 2 tvec)

-- The commit went to the target of a vector that could be read.
pub data Entered (c : RefCommit) (tvec : Option ℕ) : Type 0 where
  at_target :
      (base : ℕ)
      → tvec ≡ some base
      → c.next_pc ≡ trap_target c.interrupted c.trap_cause base
      → Entered c tvec

entered-Entered : (tvec : Option ℕ) (c : RefCommit) → entered tvec c ≡ true → Entered c tvec
unfolding entered
entered-Entered none c e = cc
entered-Entered (some base) c e = at_target base refl (unfold trap_target in ground arith)

non_retiring_event-parts :
    {S : Type 0} (a : Attempt S)
    → non_retiring_event a ≡ true
    → ((a.result.trapped ≡ true) ⊎ (a.result.interrupted ≡ true))
      × ((a.entered_mtvec ≡ true) ⊎ (a.entered_stvec ≡ true))
unfolding non_retiring_event
non_retiring_event-parts a e = ground arith

-- The test at the end of the function lets only such an attempt through.
let_through :
    {S : Type 0} (a : Attempt S) (e : Error) (x : RefCommit × S)
    → if◌then◌else◌ {A = Result (RefCommit × S)}
        (non_retiring_event a)
        (ok (a.result, a.state))
        (fail e)
      ≡ ok x
    → (non_retiring_event a ≡ true) × (x ≡ (a.result, a.state))
let_through a e x h = elim (Bool-cases (non_retiring_event a)) [
  | inl event ↦ (event, sym (ok-injective (rw event at h)))
  | inr other ↦ cc (rw other at h)
]

module _ (h : Hart) where
  -- An observed step reports where it stood and went, and its vector tests mean `Entered`.
  observe-Entered :
      (s prepared : h.State)
      → let a = observe h s prepared in
        (a.result.pc ≡ h.peek_pc s)
        × (a.result.next_pc ≡ h.peek_pc a.state)
        × ((a.entered_mtvec ≡ true) ⊎ (a.entered_stvec ≡ true)
            → Entered a.result (h.peek_csr s mtvec) ⊎ Entered a.result (h.peek_csr s stvec))
  unfolding observe
  observe-Entered s prepared = (
    refl,
    refl,
    elim [ inl m ↦ inl (entered-Entered _ _ m) | inr v ↦ inr (entered-Entered _ _ v) ],
  )

  -- A step over an RTL trap returns only if Whisper trapped or took an interrupt and went to the
  -- target of the machine's or the supervisor's vector, as it stood before the step.
  pub step_non_retiring_trap-Entered :
      (s t : h.State) (rtl_mtip rtl_seip : Bool) (c : RefCommit)
      → step_non_retiring_trap h s rtl_mtip rtl_seip ≡ ok (c, t)
      → (c.pc ≡ h.peek_pc s)
        × (c.next_pc ≡ h.peek_pc t)
        × ((c.trapped ≡ true) ⊎ (c.interrupted ≡ true))
        × (Entered c (h.peek_csr s mtvec) ⊎ Entered c (h.peek_csr s stvec))
  unfolding step_non_retiring_trap
  step_non_retiring_trap-Entered s t rtl_mtip rtl_seip c e =
      let (prepared, synced, rest) = >>=-eq-ok (synchronize_interrupts h s rtl_mtip rtl_seip) _ e in
      let (event, same) = let_through (observe h s prepared) _ (c, t) rest in
      let parts = non_retiring_event-parts (observe h s prepared) event in
      let seen = observe-Entered s prepared in
      let result : c ≡ (observe h s prepared).result = ap (λ y. y.0) same in
      let after : t ≡ (observe h s prepared).state = ap (λ y. y.1) same in
      rw (result, after) (seen.0, seen.1, parts.0, seen.2 parts.1)
