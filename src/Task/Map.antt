-- ===== src/Task/Map.antt =====
-- The usage maps of task numbers and of memory pages: a bit for each, in the byte at `i / 8`, and the
-- functions of Include/asm/task.h that mark and search them. The two pairs of functions differ in
-- the base address alone.
use open_ferain_os.Base.{
  ℕ, ◌+◌, ◌*◌, ◌/◌, ◌%◌, bit_and, bit_xor, for_range, ◌==◌, if◌then◌else◌, u8, ◌>>>◌, ◌<<<◌,
}
use open_ferain_os.Memory.{Memory, load8, store8, load32}
use open_ferain_os.Bits.{bit}

abbrev pub mem_map_base : ℕ
mem_map_base = 0x00020000

abbrev pub task_map_base : ℕ
task_map_base = 0x00049000

abbrev pub not_available : ℕ
not_available = 0xffffffff

unfoldable pub map_write : ℕ → ℕ → Memory → Memory
unfolding load8
map_write base i m =
    let pointer = base + i / 8 in store8 m pointer (u8 (bit_xor (1 <<< (i % 8)) (load8 m pointer)))

unfoldable pub task_num_write : ℕ → Memory → Memory
task_num_write = map_write task_map_base

unfoldable pub mem_map_write : ℕ → Memory → Memory
mem_map_write = map_write mem_map_base

-- The body of the inner loop, on the word at index `i` of the map.
unfoldable pub scan_bit : ℕ → ℕ → ℕ → ℕ → ℕ
scan_bit map_section i j ret_val =
    if bit_and (map_section >>> j) 0x00000001 == 0 then i * 32 + j else ret_val

unfoldable pub scan_word : ℕ → Memory → ℕ → ℕ → ℕ
scan_word base m i ret_val = for_range 32 0 (scan_bit (load32 m (base + i * 4)) i) ret_val

unfoldable pub map_scan : ℕ → Memory → ℕ
map_scan base m = for_range 32768 0 (scan_word base m) not_available

unfoldable pub get_available_task_num : Memory → ℕ
get_available_task_num = map_scan task_map_base

unfoldable pub get_available_page : Memory → ℕ
get_available_page = map_scan mem_map_base

-- The flag of number `k` in the map at `base`: 1 is used, 0 is free.
abbrev pub flag : ℕ → Memory → ℕ → ℕ
flag base m k = bit (k % 8) (m (base + k / 8))

-- How many numbers a search covers.
abbrev pub map_size : ℕ
map_size = 32768 * 32
