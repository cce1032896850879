-- ===== src/Pci/Address.antt =====
-- The addresses of the configuration space.
use open_ferain_os.Base.{ℕ, ◌+◌, ◌*◌, ◌%◌, ◌^◌, ◌<◌, ◌≡◌, arith}
use open_ferain_os.Bits.{bit_or_low, bit_and_mask}
use open_ferain_os.Pci.{convert_to_32data}

-- The address as a number: the enable bit, and each of the four fields in its place.
pub convert_to_32data-fields :
    (bus dev function reg : ℕ)
    → bus < 256
    → convert_to_32data bus dev function reg
      ≡ 2 ^ 31 + bus * 2 ^ 16 + dev % 32 * 2 ^ 11 + function % 8 * 2 ^ 8 + reg % 64 * 2 ^ 2
unfolding convert_to_32data
convert_to_32data-fields bus dev function reg h =
    let d = dev % 32 in
    let f = function % 8 in
    let r = reg % 64 in
    let a = 2 ^ 31 in
    let q1 : a + bus * 2 ^ 16 ≡ (2 ^ 20 + bus * 2 ^ 5) * 2 ^ 11 = omega arith in
    let q2 : (2 ^ 20 + bus * 2 ^ 5) * 2 ^ 11 + d * 2 ^ 11
        ≡ (2 ^ 23 + bus * 2 ^ 8 + d * 2 ^ 3) * 2 ^ 8 =
      omega arith in
    let q3 : (2 ^ 23 + bus * 2 ^ 8 + d * 2 ^ 3) * 2 ^ 8 + f * 2 ^ 8
        ≡ (2 ^ 29 + bus * 2 ^ 14 + d * 2 ^ 9 + f * 2 ^ 6) * 2 ^ 2 =
      omega arith in
    ground (
      arith,
      bit_and_mask 5 dev,
      bit_and_mask 3 function,
      bit_and_mask 6 reg,
      q1,
      q2,
      q3,
      bit_or_low 31 1 (bus * 2 ^ 16) (omega arith),
      bit_or_low 16 (2 ^ 15 + bus) (d * 2 ^ 11) (omega arith),
      bit_or_low 11 (2 ^ 20 + bus * 2 ^ 5 + d) (f * 2 ^ 8) (omega arith),
      bit_or_low 8 (2 ^ 23 + bus * 2 ^ 8 + d * 2 ^ 3 + f) (r * 2 ^ 2) (omega arith),
    )

-- Two registers of functions that exist share no address.
pub convert_to_32data-IsInjective :
    (bus dev function reg bus' dev' function' reg' : ℕ)
    → bus < 256
    → bus' < 256
    → dev < 32
    → dev' < 32
    → function < 8
    → function' < 8
    → reg < 64
    → reg' < 64
    → convert_to_32data bus dev function reg ≡ convert_to_32data bus' dev' function' reg'
    → (bus ≡ bus') × (dev ≡ dev') × (function ≡ function') × (reg ≡ reg')
convert_to_32data-IsInjective bus dev function reg bus' dev' function' reg' b b' d d' f f' r r' e =
    omega (
      arith,
      convert_to_32data-fields bus dev function reg b,
      convert_to_32data-fields bus' dev' function' reg' b',
    )
