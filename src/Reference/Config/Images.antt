-- ===== src/Reference/Config/Images.antt =====
-- The specifications of the images determine them.
use mints_riscv_cpu.Base.{
  ℕ, ◌^◌, ◌<◌, ◌≡◌, refl, arith, true, ◌==◌, if◌then◌else◌, List, [], ◌∷◌, ◌++◌, map, drop,
  read_hex, read_hex-to_hex, lacks_colon, lacks_colon-to_hex, Option, none, some, Text, codes,
  is_empty, to_hex,
}
use mints_riscv_cpu.Reference.Commit.{WhisperConfig}
use mints_riscv_cpu.Reference.Config.{binary_spec, image_specs}

-- A specification that starts with `c`, where the rest `cs` splits into `split`.
abbrev pub split_at : ℕ → Text → Option (Text × ℕ) → Option (Text × ℕ)
split_at c cs none = if c == 58 then some ([], read_hex 0 (drop 2 cs)) else none
split_at c cs (some (path, address)) = some (c ∷ path, address)

-- A specification split at its last colon: a path, and the hexadecimal address after "0x".
abbrev pub read_spec : Text → Option (Text × ℕ)
read_spec [] = none
read_spec (c ∷ cs) = split_at c cs (read_spec cs)

-- Where there is no colon there is nothing to split.
read_spec-lacks_colon : (cs : Text) → lacks_colon cs ≡ true → read_spec cs ≡ none
read_spec-lacks_colon [] lacks = refl
read_spec-lacks_colon (c ∷ cs) lacks = ground (arith, read_spec-lacks_colon cs)

read_spec-address :
    (address : ℕ)
    → address < 2 ^ 64
    → read_spec (codes ":0x" ++ to_hex address) ≡ some ([], address)
read_spec-address address fits = ground (
  arith,
  read_spec-lacks_colon (to_hex address) (lacks_colon-to_hex address),
  read_hex-to_hex address fits,
)

read_spec-path :
    (path rest : Text) (address : ℕ)
    → read_spec rest ≡ some ([], address)
    → read_spec (path ++ rest) ≡ some (path, address)
read_spec-path [] rest address split = split
read_spec-path (c ∷ path) rest address split = rw (read_spec-path path rest address split) refl

-- The last colon of what `binary_spec` makes is its own, whatever the path contains, and the
-- address after it reads back as the one that was given, if that has 64 bits.
pub read_spec-binary_spec :
    (path : Text) (address : ℕ)
    → address < 2 ^ 64
    → read_spec (binary_spec path address) ≡ some (path, address)
unfolding binary_spec
read_spec-binary_spec path address fits =
    read_spec-path path (codes ":0x" ++ to_hex address) address (read_spec-address address fits)

-- The images that have a path.
abbrev pub with_path : List (Text × ℕ) → List (Text × ℕ)
with_path [] = []
with_path ((path, address) ∷ images) =
    if is_empty path then with_path images else (path, address) ∷ with_path images

abbrev pub images_of : WhisperConfig → List (Text × ℕ)
images_of config =
    (config.dtb_binary, config.dtb_address) ∷ (config.linux_binary, config.linux_address) ∷ []

-- The specifications are those of the images that have a path, the device tree first, and determine
-- them: split at its last colon, each gives back the path and the address of its image, if the
-- addresses have 64 bits.
pub image_specs-with_path :
    (config : WhisperConfig)
    → config.dtb_address < 2 ^ 64
    → config.linux_address < 2 ^ 64
    → map read_spec (image_specs config) ≡ map some (with_path (images_of config))
unfolding image_specs
image_specs-with_path config dtb linux = ground (
  arith,
  read_spec-binary_spec config.dtb_binary config.dtb_address dtb,
  read_spec-binary_spec config.linux_binary config.linux_address linux,
)
