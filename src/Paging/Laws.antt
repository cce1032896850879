-- ===== src/Paging/Laws.antt =====
-- What `PDE_SET` and `PTE_SET` write, and that the processor's walk reads it back.
use open_ferain_os.Base.{
  ℕ, ◌+◌, ◌*◌, ◌/◌, ◌%◌, ◌^◌, ◌≤◌, ◌<◌, ◌≡◌, ◌⊎◌, some, arith, u32, refl, inl, inr, ltb, Bool-cases,
}
use open_ferain_os.Bits.{bit_and_mask, bit_and_field, bit_or_insert}
use open_ferain_os.Memory.{
  Memory, load32, store32, load32-store32, load32-store32_ne, store32-IsBytes, IsBytes,
}
use open_ferain_os.Paging.{page_entry, pde_set, pte_set}
use open_ferain_os.Paging.Walk.{
  frame_of, present_bit, write_bit, user_bit, directory_index, table_index, translate,
}

pub page_entry_value :
    (a us w p : ℕ) → page_entry a us w p ≡ a / 4096 % 2 ^ 20 * 4096 + us % 2 * 4 + w % 2 * 2 + p % 2
unfolding page_entry
page_entry_value a us w p = ground (
  arith,
  bit_and_field 12 20 a,
  bit_and_mask 1 us,
  bit_and_mask 1 w,
  bit_and_mask 1 p,
  bit_or_insert 2 1 (a / 4096 % 2 ^ 20 * 4096) (us % 2),
  bit_or_insert 1 1 (a / 4096 % 2 ^ 20 * 4096 + us % 2 * 4) (w % 2),
  bit_or_insert 0 1 (a / 4096 % 2 ^ 20 * 4096 + us % 2 * 4 + w % 2 * 2) (p % 2),
)

-- The entry written for a 32-bit address holds its page frame and, in bits 2, 1 and 0, the lowest
-- bits of the three flags; it fits 32 bits.
pub page_entry_fields :
    (a us w p : ℕ)
    → a < 2 ^ 32
    → (frame_of (page_entry a us w p) ≡ frame_of a)
      × (user_bit (page_entry a us w p) ≡ us % 2)
      × (write_bit (page_entry a us w p) ≡ w % 2)
      × (present_bit (page_entry a us w p) ≡ p % 2)
      × (page_entry a us w p < 2 ^ 32)
page_entry_fields a us w p h = rw page_entry_value (omega arith)

-- In range, the writers store the entry in the slot; out of range they do nothing.
pub pte_set_stores :
    (n base a us w p : ℕ) (m : Memory)
    → n < 1024
    → base + 4096 ≤ 2 ^ 32
    → pte_set n base a us w p m ≡ store32 m (base + n * 4) (page_entry a us w p)
unfolding pte_set
pte_set_stores n base a us w p m h l =
    let e : u32 (base + n * 4) ≡ base + n * 4 = omega arith in ground arith

pub pde_set_stores :
    (n base a us w p : ℕ) (m : Memory)
    → n < 1024
    → base + 4096 ≤ 2 ^ 32
    → pde_set n base a us w p m ≡ store32 m (base + n * 4) (page_entry a us w p)
unfolding pde_set
pde_set_stores n base a us w p m h l =
    let e : u32 (base + n * 4) ≡ base + n * 4 = omega arith in ground arith

-- A table or directory lies on a page boundary below 4 GB.
abbrev pub IsTable : ℕ → Type 0
IsTable base = (base % 4096 ≡ 0) × (base + 4096 ≤ 2 ^ 32)

-- Linking a page table into the directory entry of `v` and an address into its table entry, both
-- present, makes the processor's walk of `v` reach that address's page at the offset of `v`, if
-- the directory and the table are two different pages.
pub translate-pte_set-pde_set :
    (v pd pt a us w : ℕ) (m : Memory)
    → v < 2 ^ 32
    → a < 2 ^ 32
    → IsTable pd
    → IsTable pt
    → (pd + 4096 ≤ pt) ⊎ (pt + 4096 ≤ pd)
    → translate
        (pte_set (table_index v) pt a us w 1 (pde_set (directory_index v) pd pt us w 1 m))
        pd
        v
      ≡ some (frame_of a + v % 4096)
unfolding translate
translate-pte_set-pde_set v pd pt a us w m hv ha hd ht apart =
    let e = page_entry pt us w 1 in
    let f = page_entry a us w 1 in
    let d = pd + directory_index v * 4 in
    let t = pt + table_index v * 4 in
    rw
      (
        pte_set_stores (table_index v) pt a us w 1 _ (omega arith) ht.1,
        pde_set_stores (directory_index v) pd pt us w 1 m (omega arith) hd.1,
      )
      (ground (
        arith,
        page_entry_fields pt us w 1 (omega arith),
        page_entry_fields a us w 1 ha,
        load32-store32 m d e,
        load32-store32 (store32 m d e) t f,
        load32-store32_ne (store32 m d e) t f d,
      ))

-- A table entry is written by bytes.
pub pte_set-IsBytes :
    (i base a us w p : ℕ) (m : Memory) → IsBytes m → IsBytes (pte_set i base a us w p m)
unfolding pte_set
pte_set-IsBytes i base a us w p m h = elim (Bool-cases (ltb 1023 i)) [
  | inl out ↦ rw out h
  | inr fits ↦ rw fits (store32-IsBytes m _ _ h)
]

pub pde_set-IsBytes :
    (i base a us w p : ℕ) (m : Memory) → IsBytes m → IsBytes (pde_set i base a us w p m)
unfolding pde_set
pde_set-IsBytes i base a us w p m h = elim (Bool-cases (ltb 1023 i)) [
  | inl out ↦ rw out h
  | inr fits ↦ rw fits (store32-IsBytes m _ _ h)
]

-- The walk reads nothing but the directory and the table that it comes through.
pub translate_agree :
    (m s : Memory) (cr3 v : ℕ)
    → load32 s (frame_of cr3 + directory_index v * 4)
      ≡ load32 m (frame_of cr3 + directory_index v * 4)
    → load32 s (frame_of (load32 m (frame_of cr3 + directory_index v * 4)) + table_index v * 4)
      ≡ load32 m (frame_of (load32 m (frame_of cr3 + directory_index v * 4)) + table_index v * 4)
    → translate s cr3 v ≡ translate m cr3 v
unfolding translate
translate_agree m s cr3 v d t = rw (d, t) refl
