-- ===== src/Reference/Trap.antt =====
-- What `WhisperRef::step` and `WhisperRef::step_non_retiring_trap` both do around
-- `Hart::singleStep`: the commit's first fields, the trap vectors and the test for a trap that
-- retires no instruction (WhisperRef.cpp).
pub mod Vectors
use mints_riscv_cpu.Base.{
  ℕ, ◌+◌, ◌*◌, ◌-◌, ◌%◌, ◌^◌, Bool, true, false, ◌&&◌, ◌||◌, ◌==◌, if◌then◌else◌, bit_and, Option,
  none, some, u64, not64,
}
use mints_riscv_cpu.Reference.Result.{Result, ◌>>=◌, ok, fail, no_trap_taken}
use mints_riscv_cpu.Reference.Commit.{RefCommit, empty_commit}
use mints_riscv_cpu.Reference.Hart.{Hart, mtvec, stvec}
use mints_riscv_cpu.Reference.Interrupts.{synchronize_interrupts}

-- The lambda `trap_target`, over what it captures of `result`.
unfoldable pub trap_target : Bool → ℕ → ℕ → ℕ
trap_target interrupted trap_cause tvec =
    let base = bit_and tvec (not64 3) in
    let mode = bit_and tvec 3 in
    if interrupted && mode == 1 then u64 (base + 4 * trap_cause) else base

-- `have_tvec && result.next_pc == trap_target(tvec)`.
unfoldable pub entered : Option ℕ → RefCommit → Bool
unfolding trap_target
entered none c = false
entered (some tvec) c = c.next_pc == trap_target c.interrupted c.trap_cause tvec

-- A hart step that was made: `result` after it, the hart after it, and the two vector tests.
pub record Attempt (S : Type 0) : Type 0 where
  pub result : RefCommit
  pub state : S
  pub entered_mtvec : Bool
  pub entered_stvec : Bool

unfoldable pub non_retiring_event : {S : Type 0} → Attempt S → Bool
non_retiring_event a =
    (a.result.trapped || a.result.interrupted) && (a.entered_mtvec || a.entered_stvec)

module _ (h : Hart) where
  -- The fields read before the step from `before`, and those read after it from `after`.
  unfoldable pub observed_commit : h.State → h.State → RefCommit
  observed_commit before after =
      let trapped = h.last_trapped after in
      let interrupted = h.last_interrupted after in
      record empty_commit {
        pc = h.peek_pc before;
        privilege = h.privilege_mode before;
        next_pc = h.peek_pc after;
        trapped = trapped;
        interrupted = interrupted;
        trap_cause = if trapped || interrupted then h.last_trap_cause after else 0;
      }

  -- `before` is the hart at the top of the function, from which the vectors are read; `prepared` is
  -- the hart that is stepped.
  unfoldable pub observe : h.State → h.State → Attempt h.State
  unfolding observed_commit entered
  observe before prepared =
      let after = h.single_step prepared in
      let result = observed_commit before after in
      record {
        result = result;
        state = after;
        entered_mtvec = entered (h.peek_csr before mtvec) result;
        entered_stvec = entered (h.peek_csr before stvec) result;
      }

  unfoldable pub step_non_retiring_trap : h.State → Bool → Bool → Result (RefCommit × h.State)
  unfolding observe non_retiring_event
  step_non_retiring_trap s rtl_mtip rtl_seip = do
    prepared ← synchronize_interrupts h s rtl_mtip rtl_seip
    let a = observe s prepared
    if non_retiring_event a
        then ok (a.result, a.state)
        else fail (no_trap_taken a.result.pc a.result.next_pc)
