-- ===== src/Init/Boot.antt =====
-- The first steps of `init_main` together: none of them undoes what an earlier one set up.
use open_ferain_os.Base.{
  ℕ, ◌+◌, ◌*◌, ◌/◌, ◌^◌, ◌≤◌, ◌<◌, ◌≡◌, ◌⊎◌, arith, refl, ◌∙◌, for_range_inv, some,
}
use open_ferain_os.Memory.{Memory, IsBytes, load32, load32_agree}
use open_ferain_os.Machine.{Machine, load_cr3, paging_enable, gdtr_init, idtr_init}
use open_ferain_os.Paging.Walk.{translate, frame_of, directory_index}
use open_ferain_os.Paging.Laws.{pte_set-IsBytes, pde_set-IsBytes, translate_agree}
use open_ferain_os.Descriptor.{gdt_base, idt_base}
use open_ferain_os.Descriptor.Layout.{segment_at, gate_at}
use open_ferain_os.Descriptor.Laws.{gate_for, set_gd-IsBytes, set_id-IsBytes}
use open_ferain_os.Task.Map.{flag, mem_map_base}
use open_ferain_os.Init.{
  Handlers, set_system_int, idt_init, gdt_init, page_tables_init, mem_map_init, init_tables,
}
use open_ferain_os.Init.Gates.{
  AreAddresses, handler_for, privilege_for, flat, idt_init-gate_at, idt_init-frame,
  gdt_init-segment_at, gdt_init-frame, gate_agree, segment_agree,
}
use open_ferain_os.Init.Identity.{IsIdentity, page_tables_init-IsIdentity}
use open_ferain_os.Init.Pages.{mem_map_init_lem, mem_map_init-IsBytes}

gdt_init-IsBytes : (m : Memory) → IsBytes m → IsBytes (gdt_init m)
unfolding gdt_init
gdt_init-IsBytes m b = set_gd-IsBytes _ _ _ _ _ _ _ _ (
    set_gd-IsBytes _ _ _ _ _ _ _ _
      (set_gd-IsBytes _ _ _ _ _ _ _ _ (set_gd-IsBytes 0 0 0 0 0 0 0 m b)))

idt_init-IsBytes : (h : Handlers) (m : Memory) → IsBytes m → IsBytes (idt_init h m)
unfolding idt_init
idt_init-IsBytes h m b = set_id-IsBytes _ _ _ _ _ _ (
    set_id-IsBytes _ _ _ _ _ _ (
      set_id-IsBytes _ _ _ _ _ _ (
        set_id-IsBytes _ _ _ _ _ _ (
          set_id-IsBytes _ _ _ _ _ _ (
            set_id-IsBytes _ _ _ _ _ _ (
              set_id-IsBytes 0x00 0x08 h.de_isr 0 0x0e _ (
                for_range_inv (λ i s. IsBytes s) (λ i s. set_system_int i h.default_isr s) 0 256
                  (λ i s _ _ p. set_id-IsBytes i 0x08 h.default_isr 0 0x0e s p) 256 0 m
                  (omega arith) refl b)))))))

page_tables_init-IsBytes : (m : Memory) → IsBytes m → IsBytes (page_tables_init m)
unfolding page_tables_init
page_tables_init-IsBytes m b =
    for_range_inv (λ i s. IsBytes s) _ 0 1024 (λ i s _ _ p. pte_set-IsBytes i _ _ _ _ _ s p) 1024 0
      _ (omega arith) refl
      (for_range_inv (λ i s. IsBytes s) _ 1 1023 (λ i s _ _ p. pde_set-IsBytes i _ _ _ _ _ s p) 1022
        1 _ (omega arith) refl (pde_set-IsBytes 0 _ _ _ _ _ m b))

pub record IsBooted (h : Handlers) (t : Machine) : Type 0 where
  pub identity : (v : ℕ) → v < 2 ^ 22 → translate t.mem t.cr3 v ≡ some v
  pub code : segment_at t.mem (t.gdtr.base + 8) ≡ flat 0x0a
  pub stack : segment_at t.mem (t.gdtr.base + 16) ≡ flat 0x02
  pub gates :
      (k : ℕ)
      → k < 256
      → gate_at t.mem (t.idtr.base + k * 8) ≡ gate_for 0x08 (handler_for h k) (privilege_for k) 0x0e
  pub whole_table : t.idtr.limit + 1 ≡ 256 * 8
  pub used : (k : ℕ) → k < 1024 → flag mem_map_base t.mem k ≡ 1
  pub free : (k : ℕ) → 1024 ≤ k → k < 32768 * 32 → flag mem_map_base t.mem k ≡ 0

-- The page tables, the segments, the gates and the page map lie apart.
module _ (h : Handlers) (m : Memory) (a : AreAddresses h) (b : IsBytes m)
    (clear : (k : ℕ) → k < 32768 * 32 → flag mem_map_base m k ≡ 0) where
  abbrev tables : Memory
  tables = page_tables_init (idt_init h (gdt_init m))

  tables-IsIdentity : IsIdentity (idt_init h (gdt_init m)) tables
  tables-IsIdentity = page_tables_init-IsIdentity (idt_init h (gdt_init m))

  tables_map : (k : ℕ) → k < 32768 * 32 → flag mem_map_base tables k ≡ 0
  tables_map k l =
      let x = mem_map_base + k / 8 in
      ground (
        arith,
        tables-IsIdentity.outside x,
        idt_init-frame h (gdt_init m) x a,
        gdt_init-frame m x,
        clear k l,
      )

  marked :
      ((k : ℕ) → k < 1024 → flag mem_map_base (mem_map_init tables) k ≡ 1)
      × ((k : ℕ)
          → 1024 ≤ k
          → flag mem_map_base (mem_map_init tables) k ≡ flag mem_map_base tables k)
      × ((x : ℕ) → (x < mem_map_base) ⊎ (mem_map_base + 128 ≤ x) → mem_map_init tables x ≡ tables x)
  marked =
      mem_map_init_lem tables
        (page_tables_init-IsBytes _ (idt_init-IsBytes h _ (gdt_init-IsBytes m b)))
        (λ k l. tables_map k (omega arith))

  tables_identity : (v : ℕ) → v < 2 ^ 22 → translate (mem_map_init tables) 0 v ≡ some v
  tables_identity v l =
      let e : load32 tables (frame_of 0 + directory_index v * 4) ≡ 0x1003 =
        ground (arith, tables-IsIdentity.first) in
      translate_agree tables (mem_map_init tables) 0 v
        (load32_agree tables (mem_map_init tables) _ λ x p q. marked.2 x (omega arith))
        (load32_agree tables (mem_map_init tables) _ λ x p q. marked.2 x (omega (arith, e)))
      ∙ tables-IsIdentity.identity v l

  tables_entry : load32 (mem_map_init tables) 0 ≡ 0x1003
  tables_entry =
      let e : load32 tables 0 ≡ 0x1003 = ground (arith, tables-IsIdentity.first) in
      load32_agree tables (mem_map_init tables) 0 (λ x p q. marked.2 x (omega arith)) ∙ e

  tables-IsBytes : IsBytes (mem_map_init tables)
  tables-IsBytes =
      mem_map_init-IsBytes tables
        (page_tables_init-IsBytes _ (idt_init-IsBytes h _ (gdt_init-IsBytes m b)))

  tables_segment :
      (k : ℕ)
      → k < 4
      → segment_at (mem_map_init tables) (gdt_base + k * 8)
        ≡ segment_at (gdt_init m) (gdt_base + k * 8)
  tables_segment k l = segment_agree (gdt_init m) (mem_map_init tables) (gdt_base + k * 8) λ x p q.
      marked.2 x (omega arith)
      ∙ tables-IsIdentity.outside x (omega arith)
      ∙ idt_init-frame h (gdt_init m) x a (omega arith)

  tables_gate :
      (k : ℕ)
      → k < 256
      → gate_at (mem_map_init tables) (idt_base + k * 8)
        ≡ gate_at (idt_init h (gdt_init m)) (idt_base + k * 8)
  tables_gate k l =
      gate_agree (idt_init h (gdt_init m)) (mem_map_init tables) (idt_base + k * 8)
        λ x p q. marked.2 x (omega arith) ∙ tables-IsIdentity.outside x (omega arith)

-- From a memory of bytes with a clear page map, the first three steps of `init_main` leave a machine
-- that maps the low 4 MB to themselves, whose registers point at the flat kernel segments and at 256
-- gates of the handlers, and whose page map has just the low 1024 pages in use.
pub init_tables-IsBooted :
    (h : Handlers) (s : Machine)
    → AreAddresses h
    → IsBytes s.mem
    → ((k : ℕ) → k < 32768 * 32 → flag mem_map_base s.mem k ≡ 0)
    → IsBooted h (init_tables h s)
unfolding init_tables load_cr3 paging_enable gdtr_init idtr_init
init_tables-IsBooted h s a b clear =
    let p = marked h s.mem a b clear in
    let g = gdt_init-segment_at s.mem in
    record {
      identity = tables_identity h s.mem a b clear;
      code = tables_segment h s.mem a b clear 1 (omega arith) ∙ g.0;
      stack = tables_segment h s.mem a b clear 2 (omega arith) ∙ g.1;
      gates = λ k l. tables_gate h s.mem a b clear k l ∙ idt_init-gate_at h (gdt_init s.mem) a k l;
      whole_table = refl;
      used = p.0;
      free = λ k q l. p.1 k q ∙ tables_map h s.mem a b clear k l;
    }

-- The registers after these steps, and the directory's first entry.
pub init_tables_lem :
    (h : Handlers) (s : Machine)
    → AreAddresses h
    → IsBytes s.mem
    → ((k : ℕ) → k < 32768 * 32 → flag mem_map_base s.mem k ≡ 0)
    → let t = init_tables h s in
      (t.cr3 ≡ 0)
      × (t.gdtr.base ≡ gdt_base)
      × (t.idtr.base ≡ idt_base)
      × (load32 t.mem 0 ≡ 0x1003)
      × IsBytes t.mem
unfolding init_tables load_cr3 paging_enable gdtr_init idtr_init
init_tables_lem h s a b clear =
    (refl, refl, refl, tables_entry h s.mem a b clear, tables-IsBytes h s.mem a b clear)
