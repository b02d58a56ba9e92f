-- ===== src/Reference/Step/Destination.antt =====
-- The destination register of a commit that `WhisperRef::step` returns, and its value.
use mints_riscv_cpu.Base.{
  zero, suc, ◌<◌, ◌^◌, true, false, ◌≡◌, ◌≢◌, arith, inl, inr, ◌⊎◌, some, Bool-cases,
}
use mints_riscv_cpu.Reference.Result.{ok}
use mints_riscv_cpu.Reference.Commit.{RefCommit, RtlRetire}
use mints_riscv_cpu.Reference.Hart.{Hart, PokesAreRead, ℤ, pos, negsuc}
use mints_riscv_cpu.Reference.Decode.{is_time_csr_instruction}
use mints_riscv_cpu.Reference.Step.{capture_rd, synchronize_time, step}
use mints_riscv_cpu.Reference.Step.Capture.{IsUncaptured, Stages-rd, step-Stages}

module _ (h : Hart) (r : RtlRetire) where
  -- A captured destination holds the hart's register.
  capture_rd-rd_data :
      (n : ℤ) (s : h.State) (c c' : RefCommit)
      → IsUncaptured c
      → capture_rd h n s c ≡ ok c'
      → c'.rd_we ≡ true
      → (0 < c'.rd) × (c'.rd_data ≡ h.peek_int_reg s c'.rd)
  unfolding capture_rd
  capture_rd-rd_data (negsuc n) s c c' u e writes = ground arith
  capture_rd-rd_data (pos zero) s c c' u e writes = ground arith
  capture_rd-rd_data (pos (suc n)) s c c' u e writes = ground arith

  -- A synchronization either is none, or takes over the RTL's value.
  synchronize_time-cases :
      (s t : h.State) (c c' : RefCommit)
      → synchronize_time h r s c ≡ ok (c', t)
      → ((is_time_csr_instruction r.inst ≡ false) × (c' ≡ c) × (t ≡ s))
        ⊎ ((is_time_csr_instruction r.inst ≡ true)
            × (r.rd_we ≡ true)
            × (r.rd ≢ 0)
            × (c.rd_we ≡ true)
            × (c.rd ≡ r.rd)
            × (h.poke_int_reg s r.rd r.rd_data ≡ some t)
            × (c' ≡ record c { rd_data = r.rd_data }))
  unfolding synchronize_time
  synchronize_time-cases s t c c' e = elim (Bool-cases (is_time_csr_instruction r.inst)) [
    | inl time ↦
        inr
          (time, ground arith, ground arith, ground arith, ground arith, ground arith, ground arith)
    | inr other ↦ inl (other, ground arith, ground arith)
  ]

  -- The destination value of a commit is what the hart holds in that register afterwards, so the
  -- instructions that follow read it: also where TIME was taken over from the RTL, whose value has 64
  -- bits. This needs
  -- Whisper's integer registers to hold what is poked into them.
  pub step-rd_data :
      (s : h.State) (x : RefCommit × h.State)
      → PokesAreRead h
      → r.rd_data < 2 ^ 64
      → step h r s ≡ ok x
      → x.0.rd_we ≡ true
      → x.0.rd_data ≡ h.peek_int_reg x.1 x.0.rd
  step-rd_data s x laws fits e writes =
      let (last, u, st) = step-Stages h r s x e in
      let kept = Stages-rd h r last.state last.result x st in
      let first =
        capture_rd-rd_data (h.last_int_reg last.state) last.state last.result st.with_rd u
          st.captures_rd in
      elim (synchronize_time-cases last.state st.final st.with_rd st.timed st.synchronizes) [
        | inl (no_time, same, still) ↦
            let ref_we : st.with_rd.rd_we ≡ true = ground arith in ground (arith, first ref_we)
        | inr (is_time, we, nonzero, ref_we, same, poked, final) ↦
            ground
              (arith, laws.peek-poke_int_reg last.state st.final r.rd r.rd_data nonzero fits poked)
      ]

  -- A TIME access that `step` accepts writes the register that the RTL writes, with the RTL's
  -- value.
  pub step-time :
      (s : h.State) (x : RefCommit × h.State)
      → is_time_csr_instruction r.inst ≡ true
      → step h r s ≡ ok x
      → (r.rd_we ≡ true) × (x.0.rd_we ≡ true) × (x.0.rd ≡ r.rd) × (x.0.rd_data ≡ r.rd_data)
  step-time s x time e =
      let (last, u, st) = step-Stages h r s x e in
      let kept = Stages-rd h r last.state last.result x st in
      elim (synchronize_time-cases last.state st.final st.with_rd st.timed st.synchronizes) [
        | inl (no_time, same, still) ↦ cc
        | inr (is_time, we, nonzero, ref_we, same, poked, final) ↦
            (we, ground arith, ground arith, ground arith)
      ]
