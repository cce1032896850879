-- ===== src/Video.antt =====
-- Include/asm/interrupt.h, the services behind interrupt 0x41: `cursor_set`,
-- `video_isr_print_string` and `vm_scolling`, on the text screen of 80 columns at 0xb8000.
pub mod Scroll
pub mod Print
use open_ferain_os.Base.{
  ℕ, ◌+◌, ◌*◌, ◌/◌, bit_and, bit_or, List, for_range, get_or, length, u8, u32, ◌<<<◌, ◌>>>◌,
}
use open_ferain_os.Memory.{Memory, load8, store8, store16, load32, store32}
use open_ferain_os.Machine.{Machine, outpb}

abbrev pub video_memory_base_addr : ℕ
video_memory_base_addr = 0x000b8000

unfoldable pub cursor_set : ℕ → ℕ → Machine → Machine
unfolding outpb
cursor_set x y s =
    let vm_offset = u32 (y * 80 + x) in
    let high = u8 (bit_and vm_offset 0x0000ff00 >>> 8) in
    let low = u8 (bit_and vm_offset 0x000000ff) in
    outpb 0x3d5 low (outpb 0x3d4 0x0f (outpb 0x3d5 high (outpb 0x3d4 0x0e s)))

-- Where the first character goes, from a row and a column in the two low bytes of `edi`.
unfoldable pub write_base : ℕ → ℕ
write_base edi_reg =
    (bit_and edi_reg 0x0000ff00 >>> 8) * 0xa0
    + bit_and edi_reg 0x000000ff * 2
    + video_memory_base_addr

unfoldable pub print_char : ℕ → ℕ → ℕ → ℕ → Memory → Memory
print_char edi_reg color i char m =
    store16 m (u32 (write_base edi_reg + i * 2)) (bit_or (bit_and color 0xff <<< 8) char)

unfoldable pub video_isr_print_string : ℕ → ℕ → ℕ → ℕ → Memory → Memory
unfolding load8 print_char
video_isr_print_string esi_reg edi_reg count color =
    for_range count 0 (λ i m. print_char edi_reg color i (load8 m (u32 (esi_reg + i))) m)

-- The same service for a string of the program, given as its bytes and not by its address.
unfoldable pub print_text : List ℕ → ℕ → ℕ → Memory → Memory
print_text text edi_reg color =
    for_range (length text) 0 (λ i m. print_char edi_reg color i (get_or text i 0) m)

-- One round of each loop of `vm_scolling`.
unfoldable pub move_word : ℕ → Memory → Memory
move_word i m = store32 m (0xb8000 + i * 4) (load32 m (0xb80a0 + i * 4))

unfoldable pub blank_column : ℕ → Memory → Memory
blank_column i m = store8 (store8 m (0xb8dc0 + i * 2) 0x20) (0xb8e60 + i * 2) 0x2d

unfoldable pub vm_scolling : Memory → Memory
unfolding move_word blank_column
vm_scolling m = for_range 80 0 blank_column (for_range (22 * 160 / 4) 0 move_word m)
