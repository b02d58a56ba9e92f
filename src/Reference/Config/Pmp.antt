-- ===== src/Reference/Config/Pmp.antt =====
-- Which PMP registers are left after `configure_rtl_pmp_csrs`.
use mints_riscv_cpu.Base.{
  ℕ, ◌<◌, ◌≡◌, refl, arith, Bool, false, not, ◌&&◌, ◌||◌, ◌==◌, leb, ltb, ◌%◌, same_flag,
  same_flag-eq, List, [], ◌∷◌, ◌++◌, some, Text, codes, to_decimal, print_onto, digit_char,
  same_text, passes_below, passes_below-lt, if◌then◌else◌,
}
use mints_riscv_cpu.Reference.Result.{ok, or_fail, >>=-eq-ok, or_fail-eq-ok, csr_not_disabled}
use mints_riscv_cpu.Reference.Hart.{Hart, CsrSetup}
use mints_riscv_cpu.Reference.Config.{
  unimplemented, numbered, pmpaddr_names, pmpcfg_names, disable_csrs, configure_rtl_pmp_csrs,
}

-- What Whisper documents of `configCsr`: it sets whether the named CSR is implemented, and leaves
-- the others as they are.
pub record KeepsConfiguration (h : Hart) (is_implemented : h.State → Text → Bool) : Type 0 where
  pub implemented :
      (s s' : h.State) (name : Text) (setup : CsrSetup)
      → h.config_csr s name setup ≡ some s'
      → (other : Text)
      → is_implemented s' other
        ≡ (if same_text other name then setup.implemented else is_implemented s other)

-- Whether a name is in a list of names.
is_listed : Text → List Text → Bool
is_listed name [] = false
is_listed name (first ∷ names) = same_text name first || is_listed name names

is_listed-append :
    (name : Text) (names more : List Text)
    → is_listed name (names ++ more) ≡ (is_listed name names || is_listed name more)
unfolding is_listed
is_listed-append name [] more = refl
is_listed-append name (first ∷ names) more = ground (arith, is_listed-append name names more)

-- `pmpaddr` and `pmpcfg` with a number.
abbrev pub pmpaddr : ℕ → Text
pmpaddr i = codes "pmpaddr" ++ to_decimal i

abbrev pub pmpcfg : ℕ → Text
pmpcfg i = codes "pmpcfg" ++ to_decimal i

-- The names that the two loops go through.
abbrev pub disabled_names : List Text
disabled_names = pmpaddr_names ++ pmpcfg_names

pmpaddr-is_listed : (i : ℕ) → i < 64 → is_listed (pmpaddr i) disabled_names ≡ leb 8 i
unfolding is_listed numbered pmpaddr_names pmpcfg_names to_decimal print_onto digit_char same_text
    passes_below
pmpaddr-is_listed i below = same_flag-eq (is_listed (pmpaddr i) disabled_names) (leb 8 i) (
    passes_below-lt 64 (λ k. same_flag (is_listed (pmpaddr k) disabled_names) (leb 8 k)) i refl
      below)

pmpcfg-is_listed : (i : ℕ) → i < 16 → is_listed (pmpcfg i) disabled_names ≡ (leb 2 i && i % 2 == 0)
unfolding is_listed numbered pmpaddr_names pmpcfg_names to_decimal print_onto digit_char same_text
    passes_below
pmpcfg-is_listed i below =
    same_flag-eq (is_listed (pmpcfg i) disabled_names) (leb 2 i && i % 2 == 0) (
      passes_below-lt 16
        (λ k. same_flag (is_listed (pmpcfg k) disabled_names) (leb 2 k && k % 2 == 0)) i refl below)

module _ (h : Hart) (is_implemented : h.State → Text → Bool)
    (law : KeepsConfiguration h is_implemented) where
  disable_csrs-is_listed :
      (names : List Text) (s t : h.State) (other : Text)
      → disable_csrs h names s ≡ ok t
      → is_implemented t other ≡ (is_implemented s other && not (is_listed other names))
  unfolding disable_csrs is_listed
  disable_csrs-is_listed [] s t other e = ground arith
  disable_csrs-is_listed (name ∷ names) s t other e =
      let configured = or_fail (h.config_csr s name unimplemented) (csr_not_disabled name) in
      let (mid, e1, rest) = >>=-eq-ok configured (disable_csrs h names) e in
      let first =
        law.implemented s mid name unimplemented (or_fail-eq-ok _ (csr_not_disabled name) e1)
          other in
      ground (arith, first, disable_csrs-is_listed names mid t other rest)

  configure_rtl_pmp_csrs-is_listed :
      (s t : h.State) (other : Text)
      → configure_rtl_pmp_csrs h s ≡ ok t
      → is_implemented t other ≡ (is_implemented s other && not (is_listed other disabled_names))
  unfolding configure_rtl_pmp_csrs
  configure_rtl_pmp_csrs-is_listed s t other e =
      let (mid, e1, e2) =
        >>=-eq-ok (disable_csrs h pmpaddr_names s) (disable_csrs h pmpcfg_names) e in
      ground (
        arith,
        disable_csrs-is_listed pmpaddr_names s mid other e1,
        disable_csrs-is_listed pmpcfg_names mid t other e2,
        is_listed-append other pmpaddr_names pmpcfg_names,
      )

  -- If Whisper's configuration of a CSR leaves the others alone, then after a successful
  -- `configure_rtl_pmp_csrs` eight PMP entries are left, as in the RTL: of pmpaddr0 to pmpaddr63
  -- exactly the first eight stay as they were and the others are not implemented, and of the even
  -- pmpcfg0 to pmpcfg14 exactly pmpcfg0 stays.
  pub configure_rtl_pmp_csrs_lem :
      (s t : h.State)
      → configure_rtl_pmp_csrs h s ≡ ok t
      → ((i : ℕ)
          → i < 64
          → is_implemented t (pmpaddr i) ≡ (is_implemented s (pmpaddr i) && ltb i 8))
        × ((i : ℕ)
            → i < 16
            → i % 2 ≡ 0
            → is_implemented t (pmpcfg i) ≡ (is_implemented s (pmpcfg i) && i == 0))
  configure_rtl_pmp_csrs_lem s t e = (
    λ i below.
        ground
          (arith, configure_rtl_pmp_csrs-is_listed s t (pmpaddr i) e, pmpaddr-is_listed i below),
    λ i below even.
        ground (arith, configure_rtl_pmp_csrs-is_listed s t (pmpcfg i) e, pmpcfg-is_listed i below),
  )
