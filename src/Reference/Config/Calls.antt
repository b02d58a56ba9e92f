-- ===== src/Reference/Config/Calls.antt =====
-- The calls of Whisper that the constructor of `WhisperRef` should make, as lists.
use mints_riscv_cpu.Base.{
  ℕ, zero, suc, ◌+◌, ◌≡◌, ◌↔◌, refl, arith, true, false, List, [], ◌∷◌, ◌++◌, map, Option, none,
  some, Text, codes, to_hex, to_decimal, print_onto, digit_char,
}
use mints_riscv_cpu.Reference.Result.{Result, ok, fail, Error, or_fail, ◌>>=◌, csr_not_disabled}
use mints_riscv_cpu.Reference.Commit.{WhisperConfig}
use mints_riscv_cpu.Reference.Hart.{Hart, CsrSetup}
use mints_riscv_cpu.Reference.Config.{
  unimplemented, numbered, pmpaddr_names, pmpcfg_names, disable_csrs, binary_spec, image_specs,
}
use mints_riscv_cpu.Reference.Config.Images.{with_path, images_of}

pub data Call : Type 0 where
  call_isa : Text → Call
  call_csr : Text → CsrSetup → Call
  call_machine_counters call_user_counters : ℕ → Call
  call_elf : Text → Call
  call_binaries : List Text → Call

abbrev pub then_some {κ ℓ} : {A : Type κ} {B : Type ℓ} → Option A → (A → Option B) → Option B
then_some none next = none
then_some (some a) next = next a

module _ (h : Hart) where
  abbrev pub perform : Call → h.State → Option h.State
  perform (call_isa isa) s = h.config_isa s isa
  perform (call_csr name setup) s = h.config_csr s name setup
  perform (call_machine_counters n) s = h.config_machine_counters s n
  perform (call_user_counters n) s = h.config_user_counters s n
  perform (call_elf file) s = h.load_elf_file s file
  perform (call_binaries specs) s = h.load_binary_files s specs

  -- All of them, in order; none if one fails.
  abbrev pub performs : List Call → h.State → Option h.State
  performs [] s = some s
  performs (c ∷ cs) s = then_some (perform c s) (performs cs)

-- The numbers from `start` on, `count` of them, that grow by `by`.
abbrev pub numbers : ℕ → ℕ → ℕ → List ℕ
numbers by zero start = []
numbers by (suc count) start = start ∷ numbers by count (start + by)

-- A CSR that is not implemented.
abbrev pub call_absent : Text → Call
call_absent name =
    call_csr name (record {
      implemented = false;
      reset_value = 0;
      write_mask = 0;
      poke_mask = 0;
      shared = false;
    })

-- A CSR that reads as `value`, which neither instructions nor pokes change.
abbrev pub call_constant : Text → ℕ → Call
call_constant name value = call_csr name (record {
  implemented = true;
  reset_value = value;
  write_mask = 0;
  poke_mask = 0;
  shared = true;
})

-- pmpaddr8 to pmpaddr63, then pmpcfg2, pmpcfg4 to pmpcfg14.
abbrev pub pmp_calls : List Call
pmp_calls =
    map (λ i. call_absent (codes "pmpaddr" ++ to_decimal i)) (numbers 1 56 8)
    ++ map (λ i. call_absent (codes "pmpcfg" ++ to_decimal i)) (numbers 2 7 2)

-- Before the reset.
abbrev pub configuration_calls : List Call
configuration_calls =
    call_isa (codes "imacsu_zicsr_zifencei_zicntr")
    ∷ call_constant (codes "misa") 0x8000000000141105
    ∷ call_constant (codes "mimpid") 1
    ∷ (pmp_calls ++ call_machine_counters 0 ∷ call_user_counters 0 ∷ [])

-- The images that have a path, the device tree first, in one call if there are any.
abbrev pub image_calls : List (Text × ℕ) → List Call
image_calls [] = []
image_calls (image ∷ images) =
    call_binaries (map (λ i. i.0 ++ (codes ":0x" ++ to_hex i.1)) (image ∷ images)) ∷ []

-- After the check of MISA.
abbrev pub loading_calls : WhisperConfig → List Call
loading_calls config = call_elf config.opensbi_elf ∷ image_calls (with_path (images_of config))

module _ (h : Hart) where
  -- One call in front of others.
  pub or_fail-performs :
      (o : Option h.State) (e : Error) (rest : h.State → Result h.State) (cs : List Call)
      (t : h.State)
      → ((a : h.State) → (rest a ≡ ok t) ↔ (performs h cs a ≡ some t))
      → ((or_fail o e >>= rest) ≡ ok t) ↔ (then_some o (performs h cs) ≡ some t)
  or_fail-performs none e rest cs t follow = (λ x. cc, λ x. cc)
  or_fail-performs (some a) e rest cs t follow = follow a

  pub or_fail-last :
      (o : Option h.State) (e : Error) (t : h.State)
      → (or_fail o e ≡ ok t) ↔ (then_some o (performs h []) ≡ some t)
  or_fail-last none e t = (λ x. cc, λ x. cc)
  or_fail-last (some a) e t = (λ x. cc, λ x. cc)

  pub >>=-assoc :
      (m : Result h.State) (f g : h.State → Result h.State)
      → ((m >>= f) >>= g) ≡ (m >>= λ a. f a >>= g)
  >>=-assoc (ok a) f g = refl
  >>=-assoc (fail e) f g = refl

  pub disable_csrs-performs :
      (names : List Text) (s : h.State) (rest : h.State → Result h.State) (cs : List Call)
      (t : h.State)
      → ((a : h.State) → (rest a ≡ ok t) ↔ (performs h cs a ≡ some t))
      → ((disable_csrs h names s >>= rest) ≡ ok t)
        ↔ (performs h (map call_absent names ++ cs) s ≡ some t)
  unfolding disable_csrs
  disable_csrs-performs [] s rest cs t follow = follow s
  disable_csrs-performs (name ∷ names) s rest cs t follow =
      let configured = or_fail (h.config_csr s name unimplemented) (csr_not_disabled name) in
      rw (>>=-assoc configured (disable_csrs h names) rest) (
        or_fail-performs (h.config_csr s name unimplemented) (csr_not_disabled name)
          (λ a. disable_csrs h names a >>= rest) (map call_absent names ++ cs) t
          (λ a. disable_csrs-performs names a rest cs t follow))

pub pmp_names-calls :
    (cs : List Call)
    → map call_absent pmpaddr_names ++ (map call_absent pmpcfg_names ++ cs) ≡ pmp_calls ++ cs
unfolding numbered pmpaddr_names pmpcfg_names to_decimal print_onto digit_char
pmp_names-calls cs = refl

-- The specifications of the images with a path, and nothing where there is none.
pub image_specs-images :
    (config : WhisperConfig)
    → image_specs config
      ≡ map (λ i. i.0 ++ (codes ":0x" ++ to_hex i.1)) (with_path (images_of config))
unfolding image_specs binary_spec
image_specs-images config = ground arith
