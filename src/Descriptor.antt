-- ===== src/Descriptor.antt =====
-- Include/asm/descriptor.h: `set_gd` writes a segment descriptor, `set_id` an interrupt gate.
-- `Descriptor/Layout` is the processor's reading of the two; `Descriptor/Laws` relates them.
pub mod Layout
pub mod Laws
mod Examples
use open_ferain_os.Base.{
  ℕ, ◌+◌, ◌*◌, ◌/◌, ◌^◌, bit_and, bit_or, ltb, ◌==◌, if◌then◌else◌, ◌<<<◌, ◌>>>◌,
}
use open_ferain_os.Memory.{Memory, store32}

abbrev pub gdt_base : ℕ
gdt_base = 0x00002000

abbrev pub gdt_limit : ℕ
gdt_limit = 0x00001fff

abbrev pub idt_base : ℕ
idt_base = 0x00004000

abbrev pub idt_limit : ℕ
idt_limit = 0x000007ff

abbrev pub gd_system : ℕ
gd_system = 0x00

abbrev pub gd_normal : ℕ
gd_normal = 0x01

abbrev pub gd_type_code : ℕ
gd_type_code = 0x0a

abbrev pub gd_type_data : ℕ
gd_type_data = 0x02

abbrev pub gd_type_atss : ℕ
gd_type_atss = 0x09

abbrev pub gd_type_ldt : ℕ
gd_type_ldt = 0x02

abbrev pub gd_g_byte : ℕ
gd_g_byte = 0x00

abbrev pub gd_g_page : ℕ
gd_g_page = 0x01

abbrev pub pl_kernel : ℕ
pl_kernel = 0x00

abbrev pub pl_user : ℕ
pl_user = 0x03

abbrev pub id_type_int : ℕ
id_type_int = 0x0e

abbrev pub id_type_task : ℕ
id_type_task = 0x05

unfoldable pub gd_low : ℕ → ℕ → ℕ
gd_low gd_base limit = bit_or (bit_and gd_base 0xffff <<< 16) (bit_and limit 0xffff)

unfoldable pub gd_high : ℕ → ℕ → ℕ → ℕ → ℕ → ℕ → ℕ
gd_high gd_base limit g s type dpl =
    let x = bit_or (bit_and gd_base 0xff000000) (bit_and g 0x01 <<< 23) in
    let x = bit_or x 0x00408000 in
    let x = bit_or x (bit_and limit 0x000f0000) in
    let x = bit_or x (bit_and dpl 0x03 <<< 13) in
    let x = bit_or x (bit_and s 0x01 <<< 12) in
    let x = bit_or x (bit_and type 0x0f <<< 8) in bit_or x (bit_and gd_base 0x00ff0000 >>> 16)

-- The two stores do not wrap: the guard keeps the number at most 8191.
unfoldable pub set_gd : ℕ → ℕ → ℕ → ℕ → ℕ → ℕ → ℕ → Memory → Memory
set_gd gd_number gd_base limit g s type dpl m =
    if ltb gdt_limit gd_number
    then m
    else store32 (store32 m (gdt_base + gd_number * 8) (gd_low gd_base limit))
        (gdt_base + gd_number * 8 + 4) (gd_high gd_base limit g s type dpl)

unfoldable pub id_low : ℕ → ℕ → ℕ → ℕ
id_low id_segment id_offset type =
    if type == id_type_task
    then id_segment <<< 16
    else bit_or (id_segment <<< 16) (bit_and id_offset 0xffff)

unfoldable pub id_high : ℕ → ℕ → ℕ → ℕ
id_high id_offset dpl type =
    if type == id_type_task
    then bit_or (bit_or 0x00008000 (bit_and dpl 0x03 <<< 13)) (bit_and type 0x0f <<< 8)
    else bit_or
        (bit_or (bit_or (bit_and id_offset 0xffff0000) 0x00008000) (bit_and dpl 0x03 <<< 13))
        (bit_and type 0x0f <<< 8)

unfoldable pub set_id : ℕ → ℕ → ℕ → ℕ → ℕ → Memory → Memory
set_id id_number id_segment id_offset dpl type m =
    if ltb idt_limit id_number
    then m
    else store32 (store32 m (idt_base + id_number * 8) (id_low id_segment id_offset type))
        (idt_base + id_number * 8 + 4) (id_high id_offset dpl type)
