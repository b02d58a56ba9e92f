-- ===== src/Examples/Traps.antt =====
-- The theorems about interrupts and traps at concrete inputs.
use mints_riscv_cpu.Base.{ℕ, ◌/◌, ◌%◌, ◌^◌, true, false, ◌≡◌, ◌≢◌, ◌⊎◌, refl, arith, some, bit_at}
use mints_riscv_cpu.Reference.Result.{ok}
use mints_riscv_cpu.Reference.Commit.{RefCommit, empty_commit}
use mints_riscv_cpu.Reference.Interrupts.{replace_interrupts, synchronize_interrupts}
use mints_riscv_cpu.Reference.Interrupts.Bits.{synchronize_interrupts_lem}
use mints_riscv_cpu.Reference.Trap.{trap_target, step_non_retiring_trap}
use mints_riscv_cpu.Reference.Trap.Vectors.{
  Entered, trap_target_lem, step_non_retiring_trap-Entered,
}
use mints_riscv_cpu.Reference.Hart.{mip}
use mints_riscv_cpu.Examples.Toy.{Toy, toy, at_entry}

synced_entry :
    synchronize_interrupts toy at_entry true false ≡ ok (record at_entry { mip_value = 0x80 })
unfolding synchronize_interrupts replace_interrupts
synced_entry = refl

synchronize_interrupts_lem_example :
    (new : ℕ) × (toy.external_poke_csr at_entry mip new
      ≡ some (record at_entry { mip_value = 0x80 }))
    × (bit_at 7 new ≡ 1)
    × (bit_at 9 new ≡ 0)
    × (new % 2 ^ 7 ≡ 0)
    × (bit_at 8 new ≡ 0)
    × (new / 2 ^ 10 ≡ 0)
synchronize_interrupts_lem_example =
    synchronize_interrupts_lem toy at_entry (record at_entry { mip_value = 0x80 }) 0 true false refl
      (omega arith) synced_entry

trap_target_lem_example :
    (trap_target false 7 0x80000101 ≡ 0x80000100)
    × (0x80000101 % 4 ≡ 1 → trap_target true 7 0x80000101 ≡ 0x8000011c)
    × (0x80000101 % 4 ≢ 1 → trap_target true 7 0x80000101 ≡ 0x80000100)
trap_target_lem_example = trap_target_lem 7 0x80000101 (omega arith)

-- The machine has its timer interrupt pending when the RTL traps.
abbrev interrupted_entry : Toy
interrupted_entry = record at_entry {
  counter = 0x80000100;
  mepc_value = 0x80000000;
  mip_value = 0x80;
  enabled = false;
  interrupted = true;
}

abbrev interrupt_commit : RefCommit
interrupt_commit = record empty_commit {
  pc = 0x80000000;
  next_pc = 0x80000100;
  privilege = 3;
  interrupted = true;
  trap_cause = 7;
}

interrupt_step :
    step_non_retiring_trap toy at_entry true false ≡ ok (interrupt_commit, interrupted_entry)
unfolding step_non_retiring_trap synchronize_interrupts replace_interrupts
interrupt_step = refl

step_non_retiring_trap-Entered_example :
    (0x80000000 ≡ toy.peek_pc at_entry)
    × (0x80000100 ≡ toy.peek_pc interrupted_entry)
    × ((interrupt_commit.trapped ≡ true) ⊎ (interrupt_commit.interrupted ≡ true))
    × (Entered interrupt_commit (some 0x80000100) ⊎ Entered interrupt_commit (some 0))
step_non_retiring_trap-Entered_example =
    step_non_retiring_trap-Entered toy at_entry interrupted_entry true false interrupt_commit
      interrupt_step
