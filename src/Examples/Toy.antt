-- ===== src/Examples/Toy.antt =====
-- A small machine in Whisper's place, on which the theorems are tried. A step takes a pending
-- machine-timer interrupt, if they are enabled, or writes the old PC to a fixed register.
use mints_riscv_cpu.Base.{
  ℕ, ◌+◌, Bool, true, false, ◌&&◌, ◌==◌, ◌≡◌, refl, ap, ◌∙◌, arith, [], Option, some, Text,
  same_text, if◌then◌else◌, bit_at,
}
use mints_riscv_cpu.Reference.Hart.{
  Hart, PokesAreRead, Csr, mip, mtvec, stvec, mepc, sepc, misa, pos, Access, StoreAccess, CsrSetup,
}
use mints_riscv_cpu.Reference.Config.Pmp.{KeepsConfiguration}

pub record Toy : Type 0 where
  pub counter : ℕ
  pub registers : ℕ → ℕ
  pub destination : ℕ
  pub enabled : Bool
  pub interrupted : Bool
  pub mip_value : ℕ
  pub mtvec_value : ℕ
  pub stvec_value : ℕ
  pub mepc_value : ℕ
  pub sepc_value : ℕ
  pub misa_value : ℕ
  pub store : StoreAccess
  pub present : Text → Bool

abbrev no_access : Access
no_access = record { size = 0; va = 0; pa1 = 0; pa2 = 0 }

abbrev read_csr : Toy → Csr → ℕ
read_csr s mip = s.mip_value
read_csr s mtvec = s.mtvec_value
read_csr s stvec = s.stvec_value
read_csr s mepc = s.mepc_value
read_csr s sepc = s.sepc_value
read_csr s misa = s.misa_value

abbrev write_csr : Toy → Csr → ℕ → Toy
write_csr s mip v = record s { mip_value = v }
write_csr s mtvec v = record s { mtvec_value = v }
write_csr s stvec v = record s { stvec_value = v }
write_csr s mepc v = record s { mepc_value = v }
write_csr s sepc v = record s { sepc_value = v }
write_csr s misa v = record s { misa_value = v }

read-write_csr : (s : Toy) (c : Csr) (v : ℕ) → read_csr (write_csr s c v) c ≡ v
read-write_csr s mip v = refl
read-write_csr s mtvec v = refl
read-write_csr s stvec v = refl
read-write_csr s mepc v = refl
read-write_csr s sepc v = refl
read-write_csr s misa v = refl

abbrev write_register : Toy → ℕ → ℕ → Toy
write_register s r v = record s { registers = λ k. if k == r then v else s.registers k }

abbrev configure_csr : Toy → Text → CsrSetup → Option Toy
configure_csr s name setup = some (record s {
  present = λ other. if same_text other name then setup.implemented else s.present other;
})

abbrev run_step : Toy → Toy
run_step s =
    if s.enabled && bit_at 7 s.mip_value == 1
    then record s {
      counter = s.mtvec_value;
      mepc_value = s.counter;
      enabled = false;
      interrupted = true;
    }
    else record (write_register s s.destination s.counter) {
      counter = s.counter + 4;
      interrupted = false;
    }

abbrev pub toy : Hart
toy = record {
  State = Toy;
  peek_pc = λ s. s.counter;
  poke_pc = λ v s. record s { counter = v };
  privilege_mode = λ s. 3;
  peek_int_reg = λ s r. s.registers r;
  poke_int_reg = λ s r v. some (write_register s r v);
  peek_csr = λ s c. some (read_csr s c);
  external_poke_csr = λ s c v. some (write_csr s c v);
  poke_memory = λ s a n v. some s;
  single_step = run_step;
  last_trapped = λ s. false;
  last_interrupted = λ s. s.interrupted;
  last_trap_cause = λ s. 7;
  last_int_reg = λ s. pos s.destination;
  last_ld_st_address = λ s. s.store.access;
  last_store = λ s. s.store;
  last_csr = λ s. [];
  last_csr_value = λ s c. 0;
  new_system = λ m p. record {
    counter = 0;
    registers = λ k. 0;
    destination = 5;
    enabled = true;
    interrupted = false;
    mip_value = 0;
    mtvec_value = 0x80000100;
    stvec_value = 0;
    mepc_value = 0;
    sepc_value = 0;
    misa_value = 0x8000000000141105;
    store = record { access = no_access; value = 0 };
    present = λ name. true;
  };
  has_hart = λ s. true;
  config_isa = λ s i. some s;
  config_csr = configure_csr;
  config_machine_counters = λ s n. some s;
  config_user_counters = λ s n. some s;
  reset = λ s. s;
  load_elf_file = λ s f. some s;
  load_binary_files = λ s fs. some s;
}

poked_state : {s s' : Toy} → some s ≡ some s' → s' ≡ s
poked_state e = cc

read-write_register : (s : Toy) (r v : ℕ) → (write_register s r v).registers r ≡ v
read-write_register s r v = ground arith

pub toy-PokesAreRead : PokesAreRead toy
toy-PokesAreRead = record {
  peek-poke_int_reg = λ s s' r v nonzero fits poked.
      ap (λ t. t.registers r) (poked_state poked) ∙ read-write_register s r v;
}

pub toy-KeepsConfiguration : KeepsConfiguration toy (λ s name. s.present name)
toy-KeepsConfiguration = record {
  implemented =
      λ s s' name setup configured other. ap (λ t. t.present other) (poked_state configured);
}

-- The machine at OpenSBI's entry.
abbrev pub at_entry : Toy
at_entry = record (toy.new_system 0 0) { counter = 0x80000000 }
