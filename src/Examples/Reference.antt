-- ===== src/Examples/Reference.antt =====
-- The theorems about the reference model at concrete inputs.
use mints_riscv_cpu.Base.{ℕ, zero, suc, true, false, ◌≡◌, refl, arith, if◌then◌else◌, ◌==◌, some}
use mints_riscv_cpu.Reference.Result.{
  ok, fail, or_fail, mmio_not_seeded, load_size_unknown, too_many_non_retiring,
}
use mints_riscv_cpu.Reference.Commit.{RefCommit, RtlRetire, empty_commit}
use mints_riscv_cpu.Reference.Hart.{Hart}
use mints_riscv_cpu.Reference.Decode.{is_time_csr_instruction}
use mints_riscv_cpu.Reference.Decode.Fields.{LoadWidth}
use mints_riscv_cpu.Reference.Interrupts.{replace_interrupts, synchronize_interrupts}
use mints_riscv_cpu.Reference.Trap.{Attempt, non_retiring_event, observe}
use mints_riscv_cpu.Reference.Mmio.{reads_mmio, raw_load_value, seed_mmio_read}
use mints_riscv_cpu.Reference.Mmio.Seeding.{LoadsMmio, seed_mmio_read_lem}
use mints_riscv_cpu.Reference.Step.{
  step, retire, attempt_step, synchronize_wfi_epc, capture, capture_rd, synchronize_time,
  capture_load, capture_store, capture_csrs,
}
use mints_riscv_cpu.Reference.Step.Retirement.{Retires, Skips, stay, skip, step_iff, step_too_many}
use mints_riscv_cpu.Reference.Step.Capture.{IsWellFormed, step-IsWellFormed}
use mints_riscv_cpu.Reference.Step.Destination.{step-rd_data, step-time}
use mints_riscv_cpu.Examples.Toy.{Toy, toy, toy-PokesAreRead, at_entry}

-- The retirement of `addi x5, x0, 0` after a machine-timer interrupt was accepted.
abbrev after_timer : RtlRetire
after_timer = record {
  inst = 0x00000293;
  rd_we = true;
  rd = 5;
  rd_data = 0;
  mem_valid = false;
  mem_write = false;
  mem_addr = 0;
  mem_pa = 0;
  mem_mask = 0;
  mem_data = 0;
  mtip = true;
  seip = false;
  interrupt_from_wfi = true;
  interrupt_epc = 0x80000004;
}

-- The handler's first instruction, with the interrupt's EPC moved behind the WFI.
abbrev after_handler : Toy
after_handler = record at_entry {
  counter = 0x80000104;
  registers = λ k. if k == 5 then 0x80000100 else 0;
  enabled = false;
  interrupted = false;
  mip_value = 0x80;
  mepc_value = 0x80000004;
}

abbrev handler_commit : RefCommit
handler_commit = record empty_commit {
  pc = 0x80000100;
  next_pc = 0x80000104;
  privilege = 3;
  rd_we = true;
  rd = 5;
  rd_data = 0x80000100;
}

pub timer_step : step toy after_timer at_entry ≡ ok (handler_commit, after_handler)
unfolding step retire attempt_step synchronize_interrupts replace_interrupts seed_mmio_read
    reads_mmio synchronize_wfi_epc observe non_retiring_event capture capture_rd synchronize_time
    capture_load capture_store capture_csrs is_time_csr_instruction
timer_step = refl

step_iff_example :
    (last : Attempt Toy) × Retires toy after_timer 16 at_entry last
    × (capture toy after_timer last.result last.state ≡ ok (handler_commit, after_handler))
step_iff_example = (step_iff toy after_timer at_entry (handler_commit, after_handler)).0 timer_step

step-IsWellFormed_example : IsWellFormed handler_commit
step-IsWellFormed_example =
    step-IsWellFormed toy after_timer at_entry (handler_commit, after_handler) timer_step

step-rd_data_example : handler_commit.rd_data ≡ after_handler.registers 5
step-rd_data_example =
    step-rd_data toy after_timer at_entry (handler_commit, after_handler) toy-PokesAreRead
      (omega arith) timer_step refl

-- `rdtime a0`: the RTL's time goes to x10.
abbrev read_time : RtlRetire
read_time = record after_timer {
  inst = 0xc0102573;
  rd = 10;
  rd_data = 0x1234;
  mtip = false;
  interrupt_from_wfi = false;
}

abbrev timed_entry : Toy
timed_entry = record at_entry { destination = 10 }

abbrev after_time : Toy
after_time = record timed_entry {
  counter = 0x80000004;
  registers =
      λ k. if k == 10 then 0x1234 else (if k == 10 then 0x80000000 else timed_entry.registers k);
}

abbrev time_commit : RefCommit
time_commit = record empty_commit {
  pc = 0x80000000;
  next_pc = 0x80000004;
  privilege = 3;
  rd_we = true;
  rd = 10;
  rd_data = 0x1234;
}

time_step : step toy read_time timed_entry ≡ ok (time_commit, after_time)
unfolding step retire attempt_step synchronize_interrupts replace_interrupts seed_mmio_read
    reads_mmio synchronize_wfi_epc observe non_retiring_event capture capture_rd synchronize_time
    capture_load capture_store capture_csrs is_time_csr_instruction
time_step = refl

is_read_time : is_time_csr_instruction read_time.inst ≡ true
unfolding is_time_csr_instruction
is_read_time = refl

step-time_example :
    (read_time.rd_we ≡ true)
    × (time_commit.rd_we ≡ true)
    × (time_commit.rd ≡ read_time.rd)
    × (time_commit.rd_data ≡ read_time.rd_data)
step-time_example =
    step-time toy read_time timed_entry (time_commit, after_time) is_read_time time_step

-- `lbu a0, 0(a0)` from the UART.
abbrev read_uart : RtlRetire
read_uart = record after_timer {
  inst = 0x00054503;
  rd = 10;
  rd_data = 0x41;
  mem_valid = true;
  mem_addr = 0x10000000;
  mem_pa = 0x10000000;
}

seed_mmio_read_lem_example :
    (¬ LoadsMmio read_uart → seed_mmio_read toy read_uart at_entry ≡ ok at_entry)
    × ((n : ℕ)
        → LoadsMmio read_uart
        → LoadWidth read_uart.inst n
        → seed_mmio_read toy read_uart at_entry
          ≡ or_fail (some at_entry) (mmio_not_seeded 0x10000000 n (raw_load_value read_uart)))
    × (LoadsMmio read_uart
        → ((n : ℕ) → ¬ LoadWidth read_uart.inst n)
        → seed_mmio_read toy read_uart at_entry ≡ fail load_size_unknown)
seed_mmio_read_lem_example = seed_mmio_read_lem toy read_uart at_entry (omega arith)

-- A machine that takes the same exception over and over.
abbrev trap_loop : Hart
trap_loop = record toy { single_step = λ s. s; last_trapped = λ s. true }

abbrev at_vector : Toy
at_vector = record at_entry { counter = 0x80000100 }

abbrev trap_attempt : Attempt Toy
trap_attempt = record {
  result = record empty_commit {
    pc = 0x80000100;
    next_pc = 0x80000100;
    privilege = 3;
    trapped = true;
    trap_cause = 7;
  };
  state = at_vector;
  entered_mtvec = true;
  entered_stvec = false;
}

traps_again :
    (attempt_step trap_loop read_time at_vector ≡ ok trap_attempt)
    × (non_retiring_event trap_attempt ≡ true)
unfolding attempt_step synchronize_interrupts replace_interrupts seed_mmio_read reads_mmio
    synchronize_wfi_epc observe non_retiring_event
traps_again = (refl, refl)

keeps_trapping : (n : ℕ) → Skips trap_loop read_time at_vector n at_vector
keeps_trapping zero = stay
keeps_trapping (suc n) = skip trap_attempt (keeps_trapping n) traps_again.0 traps_again.1

step_too_many_example : step trap_loop read_time at_vector ≡ fail too_many_non_retiring
step_too_many_example = step_too_many trap_loop read_time (keeps_trapping 16)
