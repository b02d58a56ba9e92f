-- ===== src/Platform/Payload/Console.antt =====
-- What the payload prints, and in which order it does what it does.
use mints_riscv_cpu.Base.{
  ℕ, zero, suc, ◌+◌, ◌*◌, ◌/◌, ◌%◌, ◌^◌, ◌<◌, ◌≡◌, refl, sym, ap, true, ◌∙◌, arith, bit_and, ◌>>>◌,
  ◌==◌, ==_iff, passes_below, passes_below-lt, List, [], ◌∷◌, ◌++◌, map, Text, codes, digit_char,
  char_digit, read_hex, char_digit-digit_char, length,
}
use mathlib.Core.List.{append_assoc, append-nil}
use native.Mathlib.Nat.{pow-suc, div-div-eq-div-mul}
use mints_riscv_cpu.Bits.{bit_and-low}
use mints_riscv_cpu.Platform.Payload.{
  SbiCall, SbiRet, Action, ecall, store, wfi, Firmware, Machine, debug_mmio_base, sbi_call,
  putchar_call, sbi_putchar, puts, digits, char_at, put_digits, puthex64, sim_exit_success,
  base_spec_call, payload_report, idle, payload_main,
}

-- The last `left` hexadecimal digits of a number, the highest first.
abbrev pub hex_digits : ℕ → ℕ → Text
hex_digits zero value = []
hex_digits (suc left) value = digit_char (value / 16 ^ left % 16) ∷ hex_digits left value

-- `n` times the same.
abbrev pub replicate {ℓ} : {A : Type ℓ} → ℕ → A → List A
replicate zero a = []
replicate (suc n) a = a ∷ replicate n a

-- Printing a text through the legacy console.
abbrev pub prints : Text → List Action
prints text = map (λ ch. ecall (putchar_call ch)) text

prints-append : (s t : Text) → prints (s ++ t) ≡ prints s ++ prints t
prints-append [] t = refl
prints-append (c ∷ s) t = ap (λ r. ecall (putchar_call c) ∷ r) (prints-append s t)

digits_table : passes_below 16 (λ d. char_at d digits == digit_char d) ≡ true
unfolding passes_below char_at digit_char
digits_table = refl

pow-four : (left : ℕ) → 2 ^ (4 * left) ≡ 16 ^ left
pow-four zero = refl
pow-four (suc left) =
    let four : 4 * suc left ≡ suc (suc (suc (suc (4 * left)))) = omega arith in
    rw (four, pow-suc) (omega (arith, pow-four left))

-- The digit that the loop takes out of `digits`.
digit-char_at :
    (left value : ℕ)
    → char_at (bit_and (value >>> (4 * left)) 0xf) digits ≡ digit_char (value / 16 ^ left % 16)
digit-char_at left value =
    let low = bit_and-low 4 (value >>> (4 * left)) in
    let below : value / 16 ^ left % 16 < 16 = omega arith in
    rw (low, pow-four left)
      ((==_iff _ _).0 (
        passes_below-lt 16 (λ d. char_at d digits == digit_char d) (value / 16 ^ left % 16)
          digits_table below))

module _ (f : Firmware) where
  -- `m'` is `m` after the actions `more`.
  record Then (m : Machine f.State) (more : List Action) (m' : Machine f.State) : Type 0 where
    then_actions : m'.actions ≡ m.actions ++ more

  Then-trans :
      {m1 m2 m3 : Machine f.State} {xs ys : List Action}
      → Then m1 xs m2
      → Then m2 ys m3
      → Then m1 (xs ++ ys) m3
  Then-trans {m1} {xs} {ys} e e' = record {
    then_actions =
        e'.then_actions ∙ ap (λ l. l ++ ys) e.then_actions ∙ append_assoc m1.actions xs ys;
  }

  Then-refl : (m : Machine f.State) → Then m [] m
  Then-refl m = record { then_actions = sym (append-nil m.actions) }

  sbi_putchar-Then : (c : ℕ) (m : Machine f.State) → Then m (prints (c ∷ [])) (sbi_putchar f c m)
  unfolding sbi_putchar sbi_call
  sbi_putchar-Then c m = record { then_actions = refl }

  puts-Then : (text : Text) (m : Machine f.State) → Then m (prints text) (puts f text m)
  unfolding puts
  puts-Then [] m = Then-refl m
  puts-Then (c ∷ cs) m = Then-trans (sbi_putchar-Then c m) (puts-Then cs (sbi_putchar f c m))

  put_digits-Then :
      (left value : ℕ) (m : Machine f.State)
      → Then m (prints (hex_digits left value)) (put_digits f left value m)
  unfolding put_digits
  put_digits-Then zero value m = Then-refl m
  put_digits-Then (suc left) value m =
      let c = char_at (bit_and (value >>> (4 * left)) 0xf) digits in
      let first : Then m (prints (digit_char (value / 16 ^ left % 16) ∷ [])) (sbi_putchar f c m) =
        rw (← digit-char_at left value) (sbi_putchar-Then c m) in
      Then-trans first (put_digits-Then left value (sbi_putchar f c m))

  idle-Then : (n : ℕ) (m : Machine f.State) → Then m (replicate n wfi) (idle f n m)
  unfolding idle
  idle-Then zero m = Then-refl m
  idle-Then (suc n) m =
      Then-trans {xs = wfi ∷ []} (record { then_actions = refl })
        (idle-Then n (record m { actions = m.actions ++ wfi ∷ [] }))

  -- `m'` is `m` after a text is printed.
  record Printed (m : Machine f.State) (text : Text) (m' : Machine f.State) : Type 0 where
    printed : Then m (prints text) m'

  Printed-trans :
      {m1 m2 m3 : Machine f.State} {s t : Text}
      → Printed m1 s m2
      → Printed m2 t m3
      → Printed m1 (s ++ t) m3
  Printed-trans {s} {t} e e' = record {
    printed = rw (prints-append s t) (Then-trans e.printed e'.printed);
  }

  puts-Printed : (text : Text) (m : Machine f.State) → Printed m text (puts f text m)
  puts-Printed text m = record { printed = puts-Then text m }

  puthex64-Printed :
      (value : ℕ) (m : Machine f.State) → Printed m (hex_digits 16 value) (puthex64 f value m)
  unfolding puthex64
  puthex64-Printed value m = record { printed = put_digits-Then 16 value m }

  sbi_call-Then :
      (call : SbiCall) (m : Machine f.State) → Then m (ecall call ∷ []) (sbi_call f call m).1
  unfolding sbi_call
  sbi_call-Then call m = record { then_actions = refl }

-- What the payload prints, from its arguments and the firmware's answer.
abbrev pub report_text : ℕ → ℕ → SbiRet → Text
report_text hartid dtb_addr spec =
    codes "\nOpenSBI S-mode payload reached\n"
    ++ codes "hartid=0x"
    ++ hex_digits 16 hartid
    ++ codes " dtb=0x"
    ++ hex_digits 16 dtb_addr
    ++ codes "\nSBI base spec=0x"
    ++ hex_digits 16 spec.value
    ++ codes " error=0x"
    ++ hex_digits 16 spec.error
    ++ codes "\n"

module _ (f : Firmware) (m : Machine f.State) where
  -- The payload asks the firmware for the version of the specification, prints its report, a
  -- character a call, ends the simulation by one store of 1 at 0x40000000, and from then on only
  -- waits: these are all its actions, in this order, for any firmware.
  pub payload_main-actions :
      (rounds hartid dtb_addr : ℕ)
      → (payload_main f rounds hartid dtb_addr m).actions
        ≡ m.actions
          ++ ((ecall base_spec_call ∷ [])
              ++ prints (report_text hartid dtb_addr (sbi_call f base_spec_call m).0)
              ++ (store debug_mmio_base 1 ∷ [])
              ++ replicate rounds wfi)
  unfolding payload_main payload_report sim_exit_success
  payload_main-actions rounds hartid dtb_addr =
      let asked = sbi_call f base_spec_call m in
      let p1 = puts-Printed f (codes "\nOpenSBI S-mode payload reached\n") asked.1 in
      let p2 = Printed-trans f p1 (puts-Printed f (codes "hartid=0x") _) in
      let p3 = Printed-trans f p2 (puthex64-Printed f hartid _) in
      let p4 = Printed-trans f p3 (puts-Printed f (codes " dtb=0x") _) in
      let p5 = Printed-trans f p4 (puthex64-Printed f dtb_addr _) in
      let p6 = Printed-trans f p5 (puts-Printed f (codes "\nSBI base spec=0x") _) in
      let p7 = Printed-trans f p6 (puthex64-Printed f asked.0.value _) in
      let p8 = Printed-trans f p7 (puts-Printed f (codes " error=0x") _) in
      let p9 = Printed-trans f p8 (puthex64-Printed f asked.0.error _) in
      let p10 = Printed-trans f p9 (puts-Printed f (codes "\n") _) in
      let reported = Then-trans f (sbi_call-Then f base_spec_call m) p10.printed in
      let exited =
        Then-trans f {ys = store debug_mmio_base 1 ∷ []} reported
          (record { then_actions = refl }) in
      (Then-trans f exited (idle-Then f rounds _)).then_actions

length-hex_digits : (left value : ℕ) → length (hex_digits left value) ≡ left
length-hex_digits zero value = refl
length-hex_digits (suc left) value = ap suc (length-hex_digits left value)

-- Digits behind those of the rest give the number again.
read_hex-hex_digits :
    (left value n : ℕ) → n ≡ value / 16 ^ left → read_hex n (hex_digits left value) ≡ value
read_hex-hex_digits zero value n e = omega (arith, e)
read_hex-hex_digits (suc left) value n e =
    let q = value / 16 ^ left in
    let higher : n ≡ q / 16 =
      e ∙ ap (λ p. value / p) (pow-suc 16 left) ∙ sym (div-div-eq-div-mul value (16 ^ left) 16) in
    let digit = char_digit-digit_char (q % 16) (omega arith) in
    read_hex-hex_digits left value (n * 16 + char_digit (digit_char (q % 16)))
      (omega (arith, higher, digit))

module _ (f : Firmware) where
  -- `puthex64` prints a 64-bit number as sixteen characters that read back as the number, and does
  -- nothing else.
  pub puthex64-read_hex :
      (value : ℕ) (m : Machine f.State)
      → value < 2 ^ 64
      → (text : Text) × ((puthex64 f value m).actions ≡ m.actions ++ prints text)
        × (length text ≡ 16)
        × (read_hex 0 text ≡ value)
  puthex64-read_hex value m small = (
    hex_digits 16 value,
    (puthex64-Printed f value m).printed.then_actions,
    length-hex_digits 16 value,
    read_hex-hex_digits 16 value 0 (omega arith),
  )
