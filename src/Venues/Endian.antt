-- ===== src/Venues/Endian.antt =====
-- venues/common.cpp, the byte-order conversions. A word is the number of its bit pattern, so the
-- signed overloads, whose masks discard the sign extension, are the unsigned ones; a float is
-- converted through the pattern of the union `FloatData`.
pub mod Laws
use vwnet_lib.Base.{
  ℕ, zero, suc, ◌+◌, ◌*◌, ◌/◌, ◌%◌, ◌^◌, ◌<◌, ◌≡◌, refl, ap, ap₂, ◌∙◌, List, [], ◌∷◌, ◌++◌, reverse,
  bit_and, bit_or, arith,
}
use vwnet_lib.Base.Bits.{or_shifted, bit_and_byte}

swap_int16 : ℕ → ℕ
swap_int16 word = bit_or (bit_and word 0xff00 / 2 ^ 8) (bit_and word 0x00ff * 2 ^ 8)

swap_int32 : ℕ → ℕ
swap_int32 word =
    bit_or
      (bit_or (bit_or (bit_and word 0xff000000 / 2 ^ 24) (bit_and word 0x00ff0000 / 2 ^ 8))
        (bit_and word 0x0000ff00 * 2 ^ 8))
      (bit_and word 0x000000ff * 2 ^ 24)

low_half64 : ℕ → ℕ
low_half64 word =
    bit_or
      (bit_or
        (bit_or (bit_and word 0xff00000000000000 / 2 ^ 56)
          (bit_and word 0x00ff000000000000 / 2 ^ 40))
        (bit_and word 0x0000ff0000000000 / 2 ^ 24))
      (bit_and word 0x000000ff00000000 / 2 ^ 8)

swap_int64 : ℕ → ℕ
unfolding low_half64
swap_int64 word =
    bit_or
      (bit_or
        (bit_or (bit_or (low_half64 word) (bit_and word 0x00000000ff000000 * 2 ^ 8))
          (bit_and word 0x0000000000ff0000 * 2 ^ 24))
        (bit_and word 0x000000000000ff00 * 2 ^ 40))
      (bit_and word 0x00000000000000ff * 2 ^ 56)

-- The return types cut the value to the width.
unfoldable pub reverse_endian16 : ℕ → ℕ
unfolding swap_int16
reverse_endian16 word = swap_int16 word % 2 ^ 16

unfoldable pub reverse_endian32 : ℕ → ℕ
unfolding swap_int32
reverse_endian32 word = swap_int32 word % 2 ^ 32

unfoldable pub reverse_endian64 : ℕ → ℕ
unfolding swap_int64
reverse_endian64 word = swap_int64 word % 2 ^ 64

-- `fd.byte = ReverseEndian(fd.byte)` over the bits of the float.
unfoldable pub reverse_endian_float : ℕ → ℕ
unfolding reverse_endian32
reverse_endian_float bits = reverse_endian32 bits

-- A word in the memory of a little-endian host.
abbrev pub store_le : ℕ → ℕ → List ℕ
store_le zero x = []
store_le (suc n) x = (x % 256) ∷ store_le n (x / 256)

abbrev pub load_le : List ℕ → ℕ
load_le [] = 0
load_le (b ∷ bs) = b + 256 * load_le bs
