-- ===== src/Reference/Result.antt =====
-- What the reference model's functions return: a value, or the std::runtime_error that
-- WhisperRef.cpp throws through `fail` (tools/whisper_lockstep/WhisperRef.cpp).
use mints_riscv_cpu.Base.{ℕ, ◌≡◌, ◌⊎◌, inl, inr, refl, Bool, true, false, Option, none, some, Text}

-- One constructor for each message that is thrown, with the main values that the message shows.
pub data Error : Type 0 where
  csr_not_disabled : Text → Error
  misa_not_configured mimpid_not_configured : Error
  no_hart isa_not_configured : Error
  machine_counters_not_disabled user_counters_not_disabled : Error
  misa_unreadable elf_not_loaded binary_not_loaded : Error
  misa_mismatch : ℕ → ℕ → Error
  a0_not_initialized a1_not_initialized : Error
  pc_mismatch a0_mismatch a1_mismatch : ℕ → ℕ → Error
  register_out_of_range : Error
  mip_unreadable mip_not_synchronized : Error
  no_trap_taken : ℕ → ℕ → Error
  too_many_non_retiring : Error
  load_size_unknown : Error
  mmio_not_seeded : ℕ → ℕ → ℕ → Error
  epc_not_synchronized : Error
  invalid_destination : Error
  invalid_time_destination time_destination_mismatch time_not_synchronized : Error
  missing_environment : Text → Error

pub data Result {ℓ} (A : Type ℓ) : Type ℓ where
  ok : A → Result A
  fail : Error → Result A

-- A call of the library that reports failure by `false`.
abbrev pub or_fail {ℓ} : {A : Type ℓ} → Option A → Error → Result A
or_fail none e = fail e
or_fail (some a) e = ok a

-- `if (!test) fail(e);`
abbrev pub require : Bool → Error → Result (Unit {0})
require false e = fail e
require true e = ok tt

infixl 5 ◌>>=◌ ◌>>◌
abbrev pub ◌>>=◌ {κ ℓ} : {C : Type κ} {A : Type ℓ} → Result C → (C → Result A) → Result A
fail e >>= then_do = fail e
ok value >>= then_do = then_do value

abbrev pub ◌>>◌ {κ} : {C : Type κ} → Result (Unit {0}) → Result C → Result C
fail e >> next = fail e
ok value >> next = next

pub ok-injective {ℓ} : {A : Type ℓ} {a b : A} → ok a ≡ ok b → a ≡ b
ok-injective e = cc

pub or_fail-eq-ok {ℓ} :
    {A : Type ℓ} (o : Option A) (e : Error) {a : A} → or_fail o e ≡ ok a → o ≡ some a
or_fail-eq-ok none e h = cc
or_fail-eq-ok (some a) e h = cc

pub >>=-eq-ok {κ ℓ} :
    {C : Type κ} {A : Type ℓ} (first : Result C) (next : C → Result A) {last : A}
    → (first >>= next) ≡ ok last
    → (mid : C) × (first ≡ ok mid) × (next mid ≡ ok last)
>>=-eq-ok (fail e) next stopped = cc
>>=-eq-ok (ok value) next result = (value, refl, result)

pub Result-cases {ℓ} :
    {A : Type ℓ} (m : Result A) → ((a : A) × (m ≡ ok a)) ⊎ ((e : Error) × (m ≡ fail e))
Result-cases (ok a) = inl (a, refl)
Result-cases (fail e) = inr (e, refl)
