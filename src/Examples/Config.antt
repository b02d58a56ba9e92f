-- ===== src/Examples/Config.antt =====
-- The theorems about the set-up of the reference at concrete inputs.
use mints_riscv_cpu.Base.{
  ℕ, ◌<◌, ◌≡◌, ◌↔◌, ◌%◌, true, refl, arith, ◌&&◌, ◌==◌, ltb, map, some, codes, to_hex, to_decimal,
  print_onto, digit_char,
}
use mints_riscv_cpu.Reference.Result.{Result, ok, fail}
use mints_riscv_cpu.Reference.Commit.{WhisperConfig, default_config}
use mints_riscv_cpu.Reference.Hart.{misa}
use mints_riscv_cpu.Reference.Config.{
  rtl_misa, numbered, pmpaddr_names, pmpcfg_names, binary_spec, image_specs, disable_csrs,
  configure_rtl_pmp_csrs, configure_rtl_misa, configure_rtl_mimpid, configure, check_misa,
  load_images, read_back, enter_firmware, construct,
}
use mints_riscv_cpu.Reference.Config.Images.{read_spec, with_path, images_of, image_specs-with_path}
use mints_riscv_cpu.Reference.Config.Boot.{Entered, construct_iff}
use mints_riscv_cpu.Reference.Config.Calls.{performs, configuration_calls, loading_calls}
use mints_riscv_cpu.Reference.Config.Pmp.{pmpaddr, pmpcfg, configure_rtl_pmp_csrs_lem}
use mints_riscv_cpu.Examples.Toy.{Toy, toy, at_entry, toy-KeepsConfiguration}

abbrev linux_config : WhisperConfig
linux_config = record default_config { dtb_binary = codes "a:b.dtb" }

dtb_spec : binary_spec (codes "a:b.dtb") 0x87f00000 ≡ codes "a:b.dtb:0x87f00000"
unfolding binary_spec to_hex print_onto digit_char
dtb_spec = refl

image_specs-with_path_example :
    map read_spec (image_specs linux_config) ≡ map some (with_path (images_of linux_config))
image_specs-with_path_example = image_specs-with_path linux_config (omega arith) (omega arith)

-- The machine that a call leaves.
abbrev left_by : Result Toy → Toy
left_by (ok s) = s
left_by (fail e) = at_entry

with_pmp-ok :
    configure_rtl_pmp_csrs toy at_entry ≡ ok (left_by (configure_rtl_pmp_csrs toy at_entry))
unfolding configure_rtl_pmp_csrs disable_csrs numbered pmpaddr_names pmpcfg_names to_decimal
    print_onto digit_char
with_pmp-ok = refl

configure_rtl_pmp_csrs_lem_example :
    ((i : ℕ)
      → i < 64
      → (left_by (configure_rtl_pmp_csrs toy at_entry)).present (pmpaddr i) ≡ (true && ltb i 8))
    × ((i : ℕ)
        → i < 16
        → i % 2 ≡ 0
        → (left_by (configure_rtl_pmp_csrs toy at_entry)).present (pmpcfg i) ≡ (true && i == 0))
configure_rtl_pmp_csrs_lem_example =
    configure_rtl_pmp_csrs_lem toy (λ s name. s.present name) toy-KeepsConfiguration at_entry
      (left_by (configure_rtl_pmp_csrs toy at_entry)) with_pmp-ok

linux-ok : construct toy linux_config ≡ ok (left_by (construct toy linux_config))
unfolding construct configure configure_rtl_misa configure_rtl_mimpid configure_rtl_pmp_csrs
    disable_csrs numbered pmpaddr_names pmpcfg_names to_decimal print_onto digit_char check_misa
    load_images image_specs enter_firmware read_back
linux-ok = refl

construct_iff_example : (construct toy linux_config ≡ ok (left_by (construct toy linux_config))) ↔ (
    (configured loaded : Toy) × (true ≡ true)
    × (performs toy configuration_calls
          (toy.new_system linux_config.memory_size linux_config.page_size)
        ≡ some configured)
    × (toy.peek_csr (toy.reset configured) misa ≡ some rtl_misa)
    × (performs toy (loading_calls linux_config) (toy.reset configured) ≡ some loaded)
    × Entered toy linux_config loaded (left_by (construct toy linux_config)))
construct_iff_example = construct_iff toy linux_config (left_by (construct toy linux_config))
