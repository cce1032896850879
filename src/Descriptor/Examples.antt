-- ===== src/Descriptor/Examples.antt =====
-- The descriptor code on concrete entries.
use open_ferain_os.Base.{ℕ, ◌+◌, ◌*◌, ◌≤◌, ◌<◌, ◌≡◌, ◌⊎◌, refl, arith}
use open_ferain_os.Memory.{load32}
use open_ferain_os.Samples.{zeros}
use open_ferain_os.Descriptor.{gd_low, gd_high, set_gd, id_low, id_high, set_id, gdt_base, idt_base}
use open_ferain_os.Descriptor.Layout.{segment_at, gate_at}
use open_ferain_os.Descriptor.Laws.{set_gd_lem, set_gd_overwrites_gate, set_id_lem, gate_for}

code_descriptor : (gd_low 0 0xfffff ≡ 0xffff) × (gd_high 0 0xfffff 1 1 0x0a 0 ≡ 0x00cf9a00)
unfolding gd_low gd_high
code_descriptor = (refl, refl)

null_descriptor_is_present : gd_high 0 0 0 0 0 0 ≡ 0x00408000
unfolding gd_high
null_descriptor_is_present = refl

gate_words : (id_low 0x08 0x12345678 0x0e ≡ 0x00085678) × (id_high 0x12345678 3 0x0e ≡ 0x1234ee00)
unfolding id_low id_high
gate_words = (refl, refl)

task_gate_words : (id_low 0x28 0x12345678 5 ≡ 0x00280000) × (id_high 0x12345678 3 5 ≡ 0x0000e500)
unfolding id_low id_high
task_gate_words = (refl, refl)

set_gd_lem_example :
    (segment_at (set_gd 7 0x12345678 0xabcde 1 0 9 3 zeros) (gdt_base + 7 * 8) ≡ record {
      base = 0x12345678;
      limit = 0xabcde;
      granularity = 1;
      size = 1;
      is_present = 1;
      privilege = 3;
      normal = 0;
      kind = 9;
    })
    × ((x : ℕ)
        → (x < gdt_base + 7 * 8) ⊎ (gdt_base + 7 * 8 + 8 ≤ x)
        → set_gd 7 0x12345678 0xabcde 1 0 9 3 zeros x ≡ zeros x)
set_gd_lem_example =
    set_gd_lem 7 0x12345678 0xabcde 1 0 9 3 zeros (omega arith) (omega arith) (omega arith)

set_gd_overwrites_gate_example :
    (load32 (set_gd (1024 + 33) 0 0xfffff 1 1 2 0 zeros) (idt_base + 33 * 8) ≡ gd_low 0 0xfffff)
    × (load32 (set_gd (1024 + 33) 0 0xfffff 1 1 2 0 zeros) (idt_base + 33 * 8 + 4)
        ≡ gd_high 0 0xfffff 1 1 2 0)
set_gd_overwrites_gate_example = set_gd_overwrites_gate 33 0 0xfffff 1 1 2 0 zeros (omega arith)

set_id_lem_example :
    (gate_at (set_id 0x21 0x08 0x100400 3 0x0e zeros) (idt_base + 0x21 * 8)
      ≡ gate_for 0x08 0x100400 3 0x0e)
    × ((x : ℕ)
        → (x < idt_base + 0x21 * 8) ⊎ (idt_base + 0x21 * 8 + 8 ≤ x)
        → set_id 0x21 0x08 0x100400 3 0x0e zeros x ≡ zeros x)
set_id_lem_example =
    set_id_lem 0x21 0x08 0x100400 3 0x0e zeros (omega arith) (omega arith) (omega arith)
      (omega arith)
