-- ===== src/Reference/Step.antt =====
-- `WhisperRef::step` (WhisperRef.cpp), with `WhisperRef::pc` and `WhisperRef::int_reg`.
pub mod Retirement
pub mod Capture
pub mod Destination
use mints_riscv_cpu.Base.{
  ℕ, zero, suc, ◌<◌, Bool, true, false, not, ◌&&◌, ◌||◌, ◌==◌, leb, if◌then◌else◌, List, map,
  Option,
}
use mints_riscv_cpu.Reference.Result.{
  Result, ◌>>=◌, ◌>>◌, ok, fail, require, or_fail, too_many_non_retiring, epc_not_synchronized,
  invalid_destination, invalid_time_destination, time_destination_mismatch, time_not_synchronized,
  register_out_of_range,
}
use mints_riscv_cpu.Reference.Commit.{RefCommit, RtlRetire, CsrWrite}
use mints_riscv_cpu.Reference.Hart.{Hart, ℤ, pos, negsuc, mepc, sepc, StoreAccess}
use mints_riscv_cpu.Reference.Decode.{is_time_csr_instruction}
use mints_riscv_cpu.Reference.Interrupts.{synchronize_interrupts}
use mints_riscv_cpu.Reference.Mmio.{seed_mmio_read}
use mints_riscv_cpu.Reference.Trap.{Attempt, observe, non_retiring_event}

abbrev pub max_non_retiring_steps : ℕ
max_non_retiring_steps = 16

module _ (h : Hart) where
  unfoldable pub pc : h.State → ℕ
  pc s = h.peek_pc s

  unfoldable pub int_reg : h.State → ℕ → Result ℕ
  int_reg s reg = if leb 32 reg then fail register_out_of_range else ok (h.peek_int_reg s reg)

  -- The interrupt's EPC of a hart that waited in WFI.
  unfoldable pub synchronize_wfi_epc : RtlRetire → Attempt h.State → Result (Attempt h.State)
  synchronize_wfi_epc r a =
      if non_retiring_event a && (a.result.interrupted && r.interrupt_from_wfi)
      then (let epc_csr = if a.entered_mtvec then mepc else sepc in
          or_fail (h.external_poke_csr a.state epc_csr r.interrupt_epc) epc_not_synchronized
          >>= λ s. ok (record a { state = s }))
      else ok a

  -- The body of the loop, up to its `break`.
  unfoldable pub attempt_step : RtlRetire → h.State → Result (Attempt h.State)
  attempt_step r s = do
    synced ← synchronize_interrupts h s r.mtip r.seip
    seeded ← seed_mmio_read h r synced
    synchronize_wfi_epc r (observe h s seeded)

  -- The loop, with the attempts that are left before `kMaxNonRetiringSteps`.
  unfoldable pub retire : ℕ → RtlRetire → h.State → Result (RefCommit × h.State)
  retire zero r s = fail too_many_non_retiring
  retire (suc left) r s = attempt_step r s >>= λ a. elim (non_retiring_event a) [
    | true ↦ retire left r a.state
    | false ↦ ok (a.result, a.state)
  ]

  -- `lastIntReg` names the destination; the value is read from the hart.
  unfoldable pub capture_rd : ℤ → h.State → RefCommit → Result RefCommit
  capture_rd (negsuc n) s c = ok c
  capture_rd (pos zero) s c = ok c
  capture_rd (pos (suc n)) s c =
      if leb 32 (suc n)
      then fail invalid_destination
      else ok (record c { rd_we = true; rd = suc n; rd_data = h.peek_int_reg s (suc n) })

  unfoldable pub synchronize_time : RtlRetire → h.State → RefCommit → Result (RefCommit × h.State)
  synchronize_time r s c =
      if is_time_csr_instruction r.inst
      then (do
        require (r.rd_we && (not (r.rd == 0) && not (leb 32 r.rd))) invalid_time_destination
        require (c.rd_we && c.rd == r.rd) time_destination_mismatch
        s' ← or_fail (h.poke_int_reg s r.rd r.rd_data) time_not_synchronized
        ok (record c { rd_data = r.rd_data }, s'))
      else ok (c, s)

  unfoldable pub capture_load : h.State → RefCommit → RefCommit
  capture_load s c =
      let access = h.last_ld_st_address s in
      if access.size == 0 then c else record c {
        mem_valid = true;
        mem_va = access.va;
        mem_pa1 = access.pa1;
        mem_pa2 = access.pa2;
        mem_size = access.size;
      }

  unfoldable pub capture_store : h.State → RefCommit → RefCommit
  capture_store s c =
      let store = h.last_store s in
      if not (store.access.size == 0)
      then record c {
        mem_valid = true;
        mem_write = true;
        mem_va = store.access.va;
        mem_pa1 = store.access.pa1;
        mem_pa2 = store.access.pa2;
        mem_size = store.access.size;
        mem_data = store.value;
      }
      else if c.mem_valid && c.rd_we
      then record c { mem_data = c.rd_data }
      else c

  unfoldable pub capture_csrs : h.State → RefCommit → RefCommit
  capture_csrs s c = record c {
    csr_writes =
        map (λ csr. record { number = csr; value = h.last_csr_value s csr }) (h.last_csr s);
  }

  -- What follows the loop.
  unfoldable pub capture : RtlRetire → RefCommit → h.State → Result (RefCommit × h.State)
  capture r c s = do
    with_rd ← capture_rd (h.last_int_reg s) s c
    timed ← synchronize_time r s with_rd
    ok (capture_csrs timed.1 (capture_store timed.1 (capture_load timed.1 timed.0)), timed.1)

  unfoldable pub step : RtlRetire → h.State → Result (RefCommit × h.State)
  step r s = do retired ← retire max_non_retiring_steps r s; capture r retired.0 retired.1
