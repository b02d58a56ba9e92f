-- ===== src/Lib.antt =====
-- The lockstep harness of MiNTs-CPU. The Verilator testbench (tb/tb_verilator.cpp) runs the RTL of
-- the CPU; on each retired instruction it has the reference
-- (tools/whisper_lockstep/WhisperRef.cpp), a wrapper of the Whisper simulator, execute one too,
-- and compares what the two did. The development models both C++ files: what happens on each
-- rising edge of the clock, each step of the reference, what the loop prints, and the exit status
-- that follows. It also models the payload that OpenSBI starts on the CPU
-- (platform/opensbi_payload.c).
--
-- The testbench keeps a `Lockstep` record: the locals of `main` and Whisper's state. `rising_edge`
-- is the body of the loop after an evaluation with the clock high. It observes the UART and the
-- RTL's exceptions, which `step_non_retiring_trap` hands to Whisper, and notes accepted interrupts
-- as pending injections. If an instruction retires, it passes what the RTL reports and the pending
-- injections to `step`, compares the `RefCommit` that comes back by `compare_commit`, and judges
-- the report. `step` sets Whisper's interrupt bits, seeds memory for an MMIO load, lets the hart
-- run until an instruction retires, and reads the effects of that instruction back. A run of the
-- harness is a data type of its own (`Run` in Testbench/Loop/Runs), so that invariants go by
-- induction on the edges; `Halted` in Testbench/Loop/Passes says over which ports of the design
-- the run of a loop goes, and when it ends. `edge_messages` gives the lines that the loop prints
-- for an edge. The RTL calls back into the testbench for input and environment variables
-- (`get_input_dpic`, `get_env_value`); `main` hands it the paths of the memory files by the
-- environment, which it restores after the reset.
--
--   Base, with Base/Tests, Base/Lists, Base/Words, Base/Tables, Base/Numerals: shared names, the
--     Boolean tests, lists measured by native numbers, casts to machine words, printed numbers.
--   Bits, Bits/Digits: laws of the masks.
--   Platform/Payload: the payload, `payload_main`; Payload/Console on what it asks of the
--     firmware.
--   Reference/Result, Reference/Commit: the exceptions that `fail` throws, the structs of
--     WhisperRef.hpp, and the parameters of `WhisperRef::step`.
--   Reference/Hart: Whisper, as a record of the operations that WhisperRef.cpp calls.
--   Reference/Decode: `is_csr_instruction_for` to `scalar_load_size`; Decode/Fields has their
--     meaning.
--   Reference/Config: the constructor of `WhisperRef` and its helpers; Config/Calls,
--     Config/Boot, Config/Images and Config/Pmp on the calls that it makes and what it leaves
--     behind.
--   Reference/Interrupts: `synchronize_interrupts`; Interrupts/Bits.
--   Reference/Trap: the part around singleStep that both kinds of step share, and
--     `step_non_retiring_trap`; Trap/Vectors.
--   Reference/Mmio: the seeding before an MMIO load; Mmio/Seeding.
--   Reference/Step: `step`, `pc` and `int_reg`; Step/Retirement on the loop, Step/Capture and
--     Step/Destination on the commit.
--   Testbench/Lanes: `value_mask_for_size` to `normalize_rtl_store_data`; Lanes/Stores and
--     Lanes/Bounds.
--   Testbench/Dut: the ports of the design.
--   Testbench/Compare: `compare_commit`; Compare/Agreement on when it accepts, Compare/Table and
--     Compare/Reports on what it reports.
--   Testbench/Uart: the window of transmitted characters; Uart/Stream.
--   Testbench/Harness: the locals of `main` and the body of its loop; Harness/Edges has the
--     cases.
--   Testbench/Loop: the loop and the exit status; Loop/Runs, Loop/Passes, Loop/Log,
--     Loop/Injection, Loop/Pass, Loop/Bounds and Loop/Verdict on whole runs, Loop/Liveness on
--     when it ends.
--   Testbench/Console: what the loop prints and what follows it; Console/Lines and Console/Runs
--     on the lines of a run, Console/Ending on the last.
--   Testbench/Setup: `plusarg_u64`, `required_environment`, `create_whisper_reference` and the
--     reset; Setup/Plusargs.
--   Testbench/Host: `get_env_value`, `get_input_dpic` and the terminal mode of
--     `set_nonblocking`; Host/Input, Host/Terminal.
--   Testbench/Environment: the environment variables that `main` sets, restores and reads;
--     Environment/Files.
--   Testbench/Main: `main` from its arguments to its status; Main/Exits, Main/Termination.
--   Examples: a small machine in Whisper's place, and each theorem applied to it.
--
-- Machine integers are native numbers with the casts and the wrap-around written out: 64-bit
-- words, the 32-bit casts of the trap causes, the 8-bit lane masks. An exception is a value of
-- `Result`; a failed call of Whisper leaves no state. The loop over hart steps is bounded by the
-- source itself, by 16, and recurs on that number. Printing a number has 16 hexadecimal or 20
-- decimal digits to go, which 64 bits need at most. The main loop has fuel, a pass for each half
-- cycle; with a cycle limit of n below 2 ^ 62, 2 * n + 1 passes are enough. Without a limit the
-- loop may run on until it counts past a `long long`, which has no meaning in C++ and is an
-- outcome of its own. The last loop of the payload, which nothing leaves, takes its rounds as an
-- argument.
--
-- Whisper and the Verilated design are third-party and generated code: the records `Hart` and
-- `Design` are parameters, and a theorem that relies on Whisper keeping what is poked into it says
-- so by the hypothesis `PokesAreRead`, of integer registers, or `KeepsConfiguration` for the
-- configuration of CSRs. The system calls on standard input are the record `System`, of which no
-- theorem assumes anything, the firmware under the payload is `Firmware`, and what std::filesystem
-- makes of a path is a function. Not modelled are the text of the lines, of which only the values
-- that they report are, the lines that are printed before the loop, and the waveform traces
-- (TRACE). `set_nonblocking` is not called by the modelled `main`, since it is compiled in for
-- interactive runs only (ENABLE_DEBUG_INPUT). What is used of std::strtoull, std::stoull, std::hex
-- and std::to_string is written out. The flag of `exit_status` is whether TEST_MODE was defined.
-- tools/whisper_lockstep/whisper_api_smoke.cpp is not modelled, since it does not compile: it
-- calls `step` without arguments. Nor are the RTL (src, rtl), the guest test programs (core/test),
-- the boot code and the scripts, which are in other languages or only run on the CPU.
pub mod Base
pub mod Bits
pub mod Platform
pub mod Reference
pub mod Testbench
mod Examples
