-- ===== src/Reference/Step/Capture.antt =====
-- What `WhisperRef::step` makes of the last hart step: the fields of the commit and their relation
-- to the hart that is left.
use mints_riscv_cpu.Base.{zero, suc, ◌<◌, true, false, ◌≡◌, refl, sym, arith}
use mints_riscv_cpu.Reference.Result.{>>=-eq-ok, ok, ok-injective}
use mints_riscv_cpu.Reference.Commit.{RefCommit, RtlRetire}
use mints_riscv_cpu.Reference.Hart.{Hart, ℤ, pos, negsuc}
use mints_riscv_cpu.Reference.Interrupts.{synchronize_interrupts}
use mints_riscv_cpu.Reference.Mmio.{seed_mmio_read}
use mints_riscv_cpu.Reference.Trap.{Attempt, observe, observed_commit}
use mints_riscv_cpu.Reference.Step.{
  capture_rd, synchronize_time, capture_load, capture_store, capture_csrs, capture, step,
  attempt_step, synchronize_wfi_epc,
}
use mints_riscv_cpu.Reference.Step.Retirement.{step_iff}

-- What holds of every commit that `step` returns.
pub record IsWellFormed (c : RefCommit) : Type 0 where
  pub destination : c.rd_we ≡ true → (0 < c.rd) × (c.rd < 32)
  pub no_destination : c.rd_we ≡ false → (c.rd ≡ 0) × (c.rd_data ≡ 0)
  pub store_is_access : c.mem_write ≡ true → c.mem_valid ≡ true
  pub access_has_size : c.mem_valid ≡ true → 0 < c.mem_size
  pub no_access :
      c.mem_valid ≡ false
      → (c.mem_va ≡ 0) × (c.mem_pa1 ≡ 0) × (c.mem_pa2 ≡ 0) × (c.mem_size ≡ 0) × (c.mem_data ≡ 0)
  pub no_cause : c.trapped ≡ false → c.interrupted ≡ false → c.trap_cause ≡ 0
  pub load_data : c.mem_valid ≡ true → c.mem_write ≡ false → c.rd_we ≡ true → c.mem_data ≡ c.rd_data

-- The fields that the loop leaves at their initial values.
pub record IsUncaptured (c : RefCommit) : Type 0 where
  pub rd_we : c.rd_we ≡ false
  pub rd : c.rd ≡ 0
  pub rd_data : c.rd_data ≡ 0
  pub mem_valid : c.mem_valid ≡ false
  pub mem_write : c.mem_write ≡ false
  pub mem_va : c.mem_va ≡ 0
  pub mem_pa1 : c.mem_pa1 ≡ 0
  pub mem_pa2 : c.mem_pa2 ≡ 0
  pub mem_size : c.mem_size ≡ 0
  pub mem_data : c.mem_data ≡ 0
  pub no_cause : c.trapped ≡ false → c.interrupted ≡ false → c.trap_cause ≡ 0

module _ (h : Hart) (r : RtlRetire) where
  -- After the destination is captured and TIME is synchronized: no memory field is set yet.
  pub record HasDestination (c : RefCommit) : Type 0 where
    pub destination : c.rd_we ≡ true → (0 < c.rd) × (c.rd < 32)
    pub no_destination : c.rd_we ≡ false → (c.rd ≡ 0) × (c.rd_data ≡ 0)
    pub mem_valid : c.mem_valid ≡ false
    pub mem_write : c.mem_write ≡ false
    pub mem_va : c.mem_va ≡ 0
    pub mem_pa1 : c.mem_pa1 ≡ 0
    pub mem_pa2 : c.mem_pa2 ≡ 0
    pub mem_size : c.mem_size ≡ 0
    pub mem_data : c.mem_data ≡ 0
    pub no_cause : c.trapped ≡ false → c.interrupted ≡ false → c.trap_cause ≡ 0

  pub capture_rd-HasDestination :
      (n : ℤ) (s : h.State) (c c' : RefCommit)
      → IsUncaptured c
      → capture_rd h n s c ≡ ok c'
      → HasDestination c'
  unfolding capture_rd
  capture_rd-HasDestination (negsuc n) s c c' u e = ground arith
  capture_rd-HasDestination (pos zero) s c c' u e = ground arith
  capture_rd-HasDestination (pos (suc n)) s c c' u e = ground arith

  synchronize_time-HasDestination :
      (s t : h.State) (c c' : RefCommit)
      → HasDestination c
      → synchronize_time h r s c ≡ ok (c', t)
      → HasDestination c'
  unfolding synchronize_time
  synchronize_time-HasDestination s t c c' u e = ground arith

  capture_memory-IsWellFormed :
      (s : h.State) (c : RefCommit)
      → HasDestination c
      → IsWellFormed (capture_csrs h s (capture_store h s (capture_load h s c)))
  unfolding capture_csrs capture_store capture_load
  capture_memory-IsWellFormed s c u = ground arith

  pub synchronize_wfi_epc-result :
      (a a' : Attempt h.State) → synchronize_wfi_epc h r a ≡ ok a' → a'.result ≡ a.result
  unfolding synchronize_wfi_epc
  synchronize_wfi_epc-result a a' e = ground arith

  -- A hart step that was made is the observation of a single step.
  pub attempt_step-observed :
      (s : h.State) (a : Attempt h.State)
      → attempt_step h r s ≡ ok a
      → (prepared : h.State) × (a.result ≡ observed_commit h s (h.single_step prepared))
  unfolding attempt_step
  attempt_step-observed s a e =
      let (synced, e1, rest) = >>=-eq-ok (synchronize_interrupts h s r.mtip r.seip) _ e in
      let (prepared, e2, last) = >>=-eq-ok (seed_mmio_read h r synced) _ rest in
      (prepared, unfold observe in synchronize_wfi_epc-result (observe h s prepared) a last)

  observed_commit-IsUncaptured :
      (before after : h.State) → IsUncaptured (observed_commit h before after)
  unfolding observed_commit
  observed_commit-IsUncaptured before after = ground arith

  attempt_step-IsUncaptured :
      (s : h.State) (a : Attempt h.State) → attempt_step h r s ≡ ok a → IsUncaptured a.result
  attempt_step-IsUncaptured s a e =
      let (prepared, same) = attempt_step-observed s a e in
      rw same (observed_commit-IsUncaptured s (h.single_step prepared))

  -- The stages of a `capture` that succeeds.
  pub record Stages (s : h.State) (c : RefCommit) (x : RefCommit × h.State) : Type 0 where
    pub with_rd : RefCommit
    pub timed : RefCommit
    pub final : h.State
    pub captures_rd : capture_rd h (h.last_int_reg s) s c ≡ ok with_rd
    pub synchronizes : synchronize_time h r s with_rd ≡ ok (timed, final)
    pub result :
        (capture_csrs h final (capture_store h final (capture_load h final timed)), final) ≡ x

  capture-Stages :
      (s : h.State) (c : RefCommit) (x : RefCommit × h.State)
      → capture h r c s ≡ ok x
      → Stages s c x
  unfolding capture
  capture-Stages s c x e =
      let (c1, e1, rest) = >>=-eq-ok (capture_rd h (h.last_int_reg s) s c) _ e in
      let ((c2, t), e2, last) = >>=-eq-ok (synchronize_time h r s c1) _ rest in
      record {
        with_rd = c1;
        timed = c2;
        final = t;
        captures_rd = e1;
        synchronizes = e2;
        result = ok-injective last;
      }

  capture-IsWellFormed :
      (s : h.State) (c : RefCommit) (x : RefCommit × h.State)
      → IsUncaptured c
      → Stages s c x
      → IsWellFormed x.0
  capture-IsWellFormed s c x u st =
      let first = capture_rd-HasDestination (h.last_int_reg s) s c st.with_rd u st.captures_rd in
      let timed =
        synchronize_time-HasDestination s st.final st.with_rd st.timed first st.synchronizes in
      rw (sym st.result) (capture_memory-IsWellFormed st.final st.timed timed)

  -- The memory and CSR fields leave the destination alone.
  capture_memory-rd :
      (s : h.State) (c : RefCommit)
      → let d = capture_csrs h s (capture_store h s (capture_load h s c)) in
        (d.rd_we ≡ c.rd_we) × (d.rd ≡ c.rd) × (d.rd_data ≡ c.rd_data)
  unfolding capture_csrs capture_store capture_load
  capture_memory-rd s c = ground arith

  pub Stages-rd :
      (s : h.State) (c : RefCommit) (x : RefCommit × h.State) (st : Stages s c x)
      → (x.0.rd_we ≡ st.timed.rd_we)
        × (x.0.rd ≡ st.timed.rd)
        × (x.0.rd_data ≡ st.timed.rd_data)
        × (x.1 ≡ st.final)
  Stages-rd s c x st =
      let kept = capture_memory-rd st.final st.timed in
      rw (sym st.result) (kept.0, kept.1, kept.2, refl)

  pub step-Stages :
      (s : h.State) (x : RefCommit × h.State)
      → step h r s ≡ ok x
      → (last : Attempt h.State) × IsUncaptured last.result × Stages last.state last.result x
  step-Stages s x e =
      let (last, run, captured) = (step_iff h r s x).0 e in
      (
        last,
        attempt_step-IsUncaptured run.at_last last run.attempted,
        capture-Stages last.state last.result x captured,
      )

  -- Every commit that `step` returns names a register from x1 to x31 if it writes one, marks a
  -- store as an access, gives an access a size, a load the loaded register's value as its data, and
  -- leaves the fields of what did not happen at 0, the trap cause included.
  pub step-IsWellFormed :
      (s : h.State) (x : RefCommit × h.State) → step h r s ≡ ok x → IsWellFormed x.0
  step-IsWellFormed s x e =
      let (last, u, st) = step-Stages s x e in capture-IsWellFormed last.state last.result x u st
