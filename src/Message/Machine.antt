-- ===== src/Message/Machine.antt =====
-- How the machine lays out an integer in memory, which memcpy of a value goes by.
use huron_fs.Prelude.{
  ℕ, zero, suc, ◌+◌, ◌*◌, ◌/◌, ◌%◌, ◌^◌, ◌<◌, ◌≡◌, refl, List, [], ◌∷◌, arith, length,
}

pub record Layout : Type 0 where
  pub bytes_of : ℕ → ℕ → List ℕ
  pub value_of : List ℕ → ℕ

-- An integer of `width` bytes takes `width` bytes, and they are read back as the integer.
pub record IsLayout (l : Layout) : Type 0 where
  pub width_of : (width value : ℕ) → length (l.bytes_of width value) ≡ width
  pub reads : (width value : ℕ) → value < 256 ^ width → l.value_of (l.bytes_of width value) ≡ value

unfoldable pub little : ℕ → ℕ → List ℕ
little zero value = []
little (suc width) value = value % 256 ∷ little width (value / 256)

unfoldable pub little_value : List ℕ → ℕ
little_value [] = 0
little_value (b ∷ bs) = b + 256 * little_value bs

-- The order of bytes on x86
abbrev pub little_endian : Layout
little_endian = record { bytes_of = little; value_of = little_value }

length-little : (width value : ℕ) → length (little width value) ≡ width
unfolding little
length-little zero value = refl
length-little (suc width) value = omega (arith, length-little width (value / 256))

little_value-little :
    (width value : ℕ) → value < 256 ^ width → little_value (little width value) ≡ value
unfolding little little_value
little_value-little zero value h = omega arith
little_value-little (suc width) value h =
    omega (arith, little_value-little width (value / 256) (omega arith))

pub little_endian-IsLayout : IsLayout little_endian
little_endian-IsLayout = record { width_of = length-little; reads = little_value-little }
