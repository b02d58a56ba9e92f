-- ===== src/Reference/Config/Boot.antt =====
-- What the constructor of `WhisperRef` leaves behind.
use mints_riscv_cpu.Base.{
  ◌≡◌, refl, ap, ◌∙◌, ◌↔◌, arith, Bool, true, false, ==_iff, some, List, [], ◌∷◌, ◌++◌, map, codes,
  ℕ, Text, to_hex, is_empty, if◌then◌else◌,
}
use mathlib.Core.Path.{subst}
use mints_riscv_cpu.Reference.Result.{
  Result, ok, Error, require, or_fail, ◌>>◌, >>=-eq-ok, ok-injective, or_fail-eq-ok,
  a0_not_initialized, a1_not_initialized, misa_unreadable, ◌>>=◌, no_hart, isa_not_configured,
  misa_not_configured, mimpid_not_configured, machine_counters_not_disabled,
  user_counters_not_disabled, elf_not_loaded, binary_not_loaded,
}
use mints_riscv_cpu.Reference.Commit.{WhisperConfig}
use mints_riscv_cpu.Reference.Hart.{Hart, misa}
use mints_riscv_cpu.Reference.Config.{
  rtl_misa, read_only, configure, configure_rtl_misa, configure_rtl_mimpid, configure_rtl_pmp_csrs,
  check_misa, load_images, read_back, enter_firmware, construct, disable_csrs, pmpaddr_names,
  pmpcfg_names,
}
use mints_riscv_cpu.Reference.Config.Images.{with_path, images_of}
use mints_riscv_cpu.Reference.Config.Calls.{
  Call, call_absent, call_constant, call_machine_counters, call_user_counters, performs, pmp_calls,
  configuration_calls, image_calls, loading_calls, or_fail-performs, or_fail-last, >>=-assoc,
  disable_csrs-performs, pmp_names-calls, image_specs-images,
}

-- The firmware can start: PC, a0 and a1 hold what OpenSBI expects.
pub record Booted (h : Hart) (config : WhisperConfig) (s : h.State) : Type 0 where
  pub pc : h.peek_pc s ≡ config.start_pc
  pub a0 : h.peek_int_reg s 10 ≡ config.hart_id
  pub a1 : h.peek_int_reg s 11 ≡ config.dtb_address

require-ok {ℓ} :
    {B : Type ℓ} (test : Bool) (e : Error) (rest : Result B) {b : B}
    → (require test e >> rest) ≡ ok b
    → (test ≡ true) × (rest ≡ ok b)
require-ok true e rest done = (refl, done)
require-ok false e rest done = cc

module _ (h : Hart) (config : WhisperConfig) where
  -- `s` with PC, a0 and a1 set is `t`, and they hold what they were set to.
  pub record Entered (s t : h.State) : Type 0 where
    pub with_a0 : h.State
    pub pokes_a0 : h.poke_int_reg (h.poke_pc config.start_pc s) 10 config.hart_id ≡ some with_a0
    pub pokes_a1 : h.poke_int_reg with_a0 11 config.dtb_address ≡ some t
    pub booted : Booted h config t

  read_back_iff : (s t : h.State) → (read_back h config s ≡ ok t) ↔ ((s ≡ t) × Booted h config s)
  unfolding read_back
  read_back_iff s t = (
    λ e. (ground arith, record { pc = ground arith; a0 = ground arith; a1 = ground arith }),
    λ (same, booted). ground (arith, booted.pc, booted.a0, booted.a1),
  )

  enter_firmware-Entered : (s t : h.State) → enter_firmware h config s ≡ ok t → Entered s t
  unfolding enter_firmware
  enter_firmware-Entered s t e =
      let poke_a0 =
        or_fail (h.poke_int_reg (h.poke_pc config.start_pc s) 10 config.hart_id)
          a0_not_initialized in
      let (with_a0, e0, rest0) = >>=-eq-ok poke_a0 _ e in
      let poke_a1 = or_fail (h.poke_int_reg with_a0 11 config.dtb_address) a1_not_initialized in
      let (with_a1, e1, rest1) = >>=-eq-ok poke_a1 (read_back h config) rest0 in
      let (same, booted) = (read_back_iff with_a1 t).0 rest1 in
      record {
        with_a0 = with_a0;
        pokes_a0 = or_fail-eq-ok _ a0_not_initialized e0;
        pokes_a1 = or_fail-eq-ok _ a1_not_initialized e1 ∙ ap (λ x. some x) same;
        booted = rw (← same) booted;
      }

  enter_firmware_of_Entered : (s t : h.State) → Entered s t → enter_firmware h config s ≡ ok t
  unfolding enter_firmware
  enter_firmware_of_Entered s t v =
      rw (v.pokes_a0, v.pokes_a1) ((read_back_iff t t).1 (refl, v.booted))

  check_misa-ok :
      (s t : h.State) → check_misa h s ≡ ok t → (h.peek_csr s misa ≡ some rtl_misa) × (s ≡ t)
  unfolding check_misa
  check_misa-ok s t e =
      let (read, peeked, rest) = >>=-eq-ok (or_fail (h.peek_csr s misa) misa_unreadable) _ e in
      let (same, last) = require-ok _ _ _ rest in
      (
        or_fail-eq-ok _ misa_unreadable peeked ∙ ap (λ n. some n) ((==_iff read rtl_misa).0 same),
        ok-injective last,
      )

  check_misa_of_rtl_misa : (s : h.State) → h.peek_csr s misa ≡ some rtl_misa → check_misa h s ≡ ok s
  unfolding check_misa
  check_misa_of_rtl_misa s e = rw e refl

  pmp-performs :
      (c : h.State) (rest : h.State → Result h.State) (cs : List Call) (t : h.State)
      → ((a : h.State) → (rest a ≡ ok t) ↔ (performs h cs a ≡ some t))
      → ((configure_rtl_pmp_csrs h c >>= rest) ≡ ok t) ↔ (performs h (pmp_calls ++ cs) c ≡ some t)
  unfolding configure_rtl_pmp_csrs
  pmp-performs c rest cs t follow =
      subst
        (λ calls. ((configure_rtl_pmp_csrs h c >>= rest) ≡ ok t) ↔ (performs h calls c ≡ some t))
        (pmp_names-calls cs)
        (rw (>>=-assoc h (disable_csrs h pmpaddr_names c) (disable_csrs h pmpcfg_names) rest) (
          disable_csrs-performs h pmpaddr_names c (λ a. disable_csrs h pmpcfg_names a >>= rest)
            (map call_absent pmpcfg_names ++ cs) t
            (λ a. disable_csrs-performs h pmpcfg_names a rest cs t follow)))

  -- The configuration after the test for a hart.
  configured-performs :
      (start t : h.State)
      → ((do
        with_isa ←
            or_fail (h.config_isa start (codes "imacsu_zicsr_zifencei_zicntr")) isa_not_configured
        with_misa ← configure_rtl_misa h with_isa
        with_mimpid ← configure_rtl_mimpid h with_misa
        with_pmp ← configure_rtl_pmp_csrs h with_mimpid
        with_machine ← or_fail (h.config_machine_counters with_pmp 0) machine_counters_not_disabled
        or_fail (h.config_user_counters with_machine 0) user_counters_not_disabled)
          ≡ ok t)
        ↔ (performs h configuration_calls start ≡ some t)
  unfolding configure_rtl_misa configure_rtl_mimpid
  configured-performs start t =
      let counters : List Call = call_machine_counters 0 ∷ call_user_counters 0 ∷ [] in
      let last : List Call = call_user_counters 0 ∷ [] in
      let mimpid_on : List Call = call_constant (codes "mimpid") 1 ∷ (pmp_calls ++ counters) in
      let misa_on : List Call = call_constant (codes "misa") 0x8000000000141105 ∷ mimpid_on in
      or_fail-performs h (h.config_isa start (codes "imacsu_zicsr_zifencei_zicntr"))
        isa_not_configured _ misa_on t
        (λ a.
          or_fail-performs h (h.config_csr a (codes "misa") (read_only rtl_misa))
            misa_not_configured _ mimpid_on t
            (λ b.
              or_fail-performs h (h.config_csr b (codes "mimpid") (read_only 1))
                mimpid_not_configured _ (pmp_calls ++ counters) t
                (λ c. pmp-performs c _ counters t (λ d.
                  or_fail-performs h (h.config_machine_counters d 0) machine_counters_not_disabled _
                    last t
                    (λ x.
                      or_fail-last h (h.config_user_counters x 0) user_counters_not_disabled t)))))

  -- The configuration is the calls, on a system that has a hart.
  configure_iff :
      (t : h.State)
      → (configure h config ≡ ok t) ↔ (
          (h.has_hart (h.new_system config.memory_size config.page_size) ≡ true)
          × (performs h configuration_calls (h.new_system config.memory_size config.page_size)
              ≡ some t))
  unfolding configure
  configure_iff t =
      let start = h.new_system config.memory_size config.page_size in
      let chain = configured-performs start t in
      (
        λ e. let (has, rest) = require-ok (h.has_hart start) no_hart _ e in (has, chain.0 rest),
        λ (has, calls). rw has (chain.1 calls),
      )

  -- The binaries are loaded by one call, or by none if there are none.
  binaries-performs :
      (a t : h.State) (images : List (Text × ℕ))
      → let specs = map (λ i. i.0 ++ (codes ":0x" ++ to_hex i.1)) images in
        ((if is_empty specs then ok a else or_fail (h.load_binary_files a specs) binary_not_loaded)
          ≡ ok t)
        ↔ (performs h (image_calls images) a ≡ some t)
  binaries-performs a t [] = (λ e. cc, λ e. cc)
  binaries-performs a t (image ∷ images) = or_fail-last h _ binary_not_loaded t

  load_images_iff :
      (s t : h.State)
      → (load_images h config s ≡ ok t) ↔ (performs h (loading_calls config) s ≡ some t)
  unfolding load_images
  load_images_iff s t =
      or_fail-performs h (h.load_elf_file s config.opensbi_elf) elf_not_loaded _ _ t
        (λ a. rw (image_specs-images config) (binaries-performs a t (with_path (images_of config))))

  -- The constructor succeeds exactly when there is a hart, Whisper makes the calls of the
  -- configuration, MISA is the RTL's right after the only reset, Whisper then loads the ELF file and
  -- the images that have a path, takes the PC, a0 and a1, and the three read back as the start, the
  -- hart and the address of the device tree.
  pub construct_iff :
      (s : h.State)
      → (construct h config ≡ ok s) ↔ (
          (configured loaded : h.State) × (h.has_hart
              (h.new_system config.memory_size config.page_size)
            ≡ true)
          × (performs h configuration_calls (h.new_system config.memory_size config.page_size)
              ≡ some configured)
          × (h.peek_csr (h.reset configured) misa ≡ some rtl_misa)
          × (performs h (loading_calls config) (h.reset configured) ≡ some loaded)
          × Entered loaded s)
  unfolding construct
  construct_iff s = (
    λ e.
        let (configured, e1, rest1) = >>=-eq-ok (configure h config) _ e in
        let (checked, e2, rest2) = >>=-eq-ok (check_misa h (h.reset configured)) _ rest1 in
        let (loaded, e3, rest3) = >>=-eq-ok (load_images h config checked) _ rest2 in
        let (same_misa, same) = check_misa-ok (h.reset configured) checked e2 in
        let calls = (configure_iff configured).0 e1 in
        (
          configured,
          loaded,
          calls.0,
          calls.1,
          same_misa,
          (load_images_iff (h.reset configured) loaded).0 (ap (load_images h config) same ∙ e3),
          enter_firmware-Entered loaded s rest3,
        ),
    λ (configured, loaded, has, calls, same_misa, loads, entered).
        rw
          (
            (configure_iff configured).1 (has, calls),
            check_misa_of_rtl_misa (h.reset configured) same_misa,
            (load_images_iff (h.reset configured) loaded).1 loads,
          )
          (enter_firmware_of_Entered loaded s entered),
  )
