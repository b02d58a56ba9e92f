-- ===== src/Reference/Mmio/Seeding.antt =====
-- Which memory the harness seeds before a load, and with what.
use mints_riscv_cpu.Base.{
  ℕ, zero, suc, ◌*◌, ◌/◌, ◌%◌, ◌^◌, ◌<◌, true, false, ◌≡◌, refl, arith, bit_and, ◌==◌, ◌≤◌, ◌⊎◌,
  ◌↔◌, Bool-cases, inl, inr,
}
use mints_riscv_cpu.Bits.{bit_and-low}
use mints_riscv_cpu.Reference.Result.{ok, fail, or_fail, load_size_unknown, mmio_not_seeded}
use mints_riscv_cpu.Reference.Commit.{RtlRetire}
use mints_riscv_cpu.Reference.Hart.{Hart}
use mints_riscv_cpu.Reference.Decode.Fields.{
  LoadWidth, is_rtl_mmio_address_iff, base_load, compressed_word, compressed_double,
  scalar_load_size-LoadWidth, scalar_load_size-eq-zero,
}
use mints_riscv_cpu.Reference.Mmio.{load_mask, raw_load_value, reads_mmio, seed_mmio_read}

-- The width of a load is one of the four of the switch.
pub data Width : ℕ → Type 0 where
  byte : Width 1
  half : Width 2
  word : Width 4
  double : Width 8

two-pow-Width : (k : ℕ) → k < 4 → Width (2 ^ k)
two-pow-Width zero h = byte
two-pow-Width (suc zero) h = half
two-pow-Width (suc (suc zero)) h = word
two-pow-Width (suc (suc (suc zero))) h = double
two-pow-Width (suc (suc (suc (suc k)))) h = absurd (omega arith)

LoadWidth-Width : {inst n : ℕ} → LoadWidth inst n → Width n
LoadWidth-Width {inst} (base_load opcode loads) = two-pow-Width (inst / 4096 % 8 % 4) (omega arith)
LoadWidth-Width (compressed_word even funct3) = word
LoadWidth-Width (compressed_double even funct3) = double

bit_and-load_mask :
    {n : ℕ} (value : ℕ)
    → Width n
    → value < 2 ^ 64
    → bit_and value (load_mask n) % 2 ^ (n * 8) ≡ value % 2 ^ (n * 8)
unfolding load_mask
bit_and-load_mask value byte fits = omega (arith, bit_and-low 8 value)
bit_and-load_mask value half fits = omega (arith, bit_and-low 16 value)
bit_and-load_mask value word fits = omega (arith, bit_and-low 32 value)
bit_and-load_mask value double fits = omega (arith, bit_and-low 64 value)

raw_load_value-low :
    (r : RtlRetire) {n : ℕ}
    → LoadWidth r.inst n
    → r.rd_data < 2 ^ 64
    → raw_load_value r % 2 ^ (n * 8) ≡ r.rd_data % 2 ^ (n * 8)
unfolding raw_load_value
raw_load_value-low r {n} load fits =
    rw (scalar_load_size-LoadWidth r.inst n load)
      (bit_and-load_mask r.rd_data (LoadWidth-Width load) fits)

Width-pos : {n : ℕ} → Width n → (n == 0) ≡ false
Width-pos byte = refl
Width-pos half = refl
Width-pos word = refl
Width-pos double = refl

-- A load from one of the windows of ACLINT, PLIC and UART, by its physical address.
pub record LoadsMmio (r : RtlRetire) : Type 0 where
  pub valid : r.mem_valid ≡ true
  pub loads : r.mem_write ≡ false
  pub window :
      ((0x02000000 ≤ r.mem_pa) × (r.mem_pa < 0x02010000))
      ⊎ (((0x0c000000 ≤ r.mem_pa) × (r.mem_pa < 0x10000000))
          ⊎ ((0x10000000 ≤ r.mem_pa) × (r.mem_pa < 0x10000100)))

reads_mmio_iff : (r : RtlRetire) → (reads_mmio r ≡ true) ↔ LoadsMmio r
unfolding reads_mmio
reads_mmio_iff r =
    let window = is_rtl_mmio_address_iff r.mem_pa in
    (
      λ e. record { valid = ground arith; loads = ground arith; window = window.0 (ground arith) },
      λ v. ground (arith, v.valid, v.loads, window.1 v.window),
    )

not-LoadsMmio : (r : RtlRetire) → ¬ LoadsMmio r → reads_mmio r ≡ false
not-LoadsMmio r other = elim (Bool-cases (reads_mmio r)) [
  | inl reads ↦ absurd (other ((reads_mmio_iff r).0 reads))
  | inr none ↦ none
]

module _ (h : Hart) (r : RtlRetire) (s : h.State) where
  seed_other : reads_mmio r ≡ false → seed_mmio_read h r s ≡ ok s
  unfolding seed_mmio_read
  seed_other e = rw e

  seed_load :
      {n : ℕ}
      → reads_mmio r ≡ true
      → LoadWidth r.inst n
      → r.rd_data < 2 ^ 64
      → seed_mmio_read h r s
        ≡ or_fail
            (h.poke_memory s r.mem_pa n (r.rd_data % 2 ^ (n * 8)))
            (mmio_not_seeded r.mem_pa n (raw_load_value r))
  unfolding seed_mmio_read
  seed_load {n} mmio load fits = rw (
    mmio,
    scalar_load_size-LoadWidth r.inst n load,
    Width-pos (LoadWidth-Width load),
    raw_load_value-low r load fits,
  )

  seed_unknown :
      reads_mmio r ≡ true
      → ((n : ℕ) → ¬ LoadWidth r.inst n)
      → seed_mmio_read h r s ≡ fail load_size_unknown
  unfolding seed_mmio_read
  seed_unknown mmio no_load = ground (arith, scalar_load_size-eq-zero r.inst no_load)

  -- Before any other retirement than an MMIO load nothing is seeded: RAM stays Whisper's own. An
  -- MMIO load has exactly the bytes of its width seeded, at its physical address, with the low bytes
  -- of the RTL's result, and the step fails if Whisper refuses; an instruction that reads MMIO and
  -- is no scalar load makes it fail too.
  pub seed_mmio_read_lem :
      r.rd_data < 2 ^ 64
      → (¬ LoadsMmio r → seed_mmio_read h r s ≡ ok s)
        × ((n : ℕ)
            → LoadsMmio r
            → LoadWidth r.inst n
            → seed_mmio_read h r s
              ≡ or_fail
                  (h.poke_memory s r.mem_pa n (r.rd_data % 2 ^ (n * 8)))
                  (mmio_not_seeded r.mem_pa n (raw_load_value r)))
        × (LoadsMmio r
            → ((n : ℕ) → ¬ LoadWidth r.inst n)
            → seed_mmio_read h r s ≡ fail load_size_unknown)
  seed_mmio_read_lem fits = (
    λ other. seed_other (not-LoadsMmio r other),
    λ n mmio load. seed_load ((reads_mmio_iff r).1 mmio) load fits,
    λ mmio. seed_unknown ((reads_mmio_iff r).1 mmio),
  )
