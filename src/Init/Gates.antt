-- ===== src/Init/Gates.antt =====
-- The interrupt table and the segments after `descriptor_init`, as the processor reads them.
use open_ferain_os.Base.{
  ℕ, ◌+◌, ◌*◌, ◌^◌, ◌≤◌, ◌<◌, ◌≡◌, ◌≢◌, ◌⊎◌, inl, inr, arith, refl, ◌∙◌, ◌==◌, if◌then◌else◌,
  for_range, for_range_inv, Bool-cases, leb, ◌&&◌,
}
use open_ferain_os.Memory.{Memory, load32_agree}
use open_ferain_os.Descriptor.{set_gd, set_id, gdt_base, idt_base, id_type_int}
use open_ferain_os.Descriptor.Layout.{Segment, segment_at, gate_at}
use open_ferain_os.Descriptor.Laws.{set_gd_lem, set_id_lem, gate_for}
use open_ferain_os.Init.{Handlers, set_system_int, set_user_int, idt_init, gdt_init}

-- Entries whose eight bytes agree are read alike.
pub gate_agree :
    (m s : Memory) (a : ℕ) → ((x : ℕ) → a ≤ x → x < a + 8 → s x ≡ m x) → gate_at s a ≡ gate_at m a
gate_agree m s a h = ground (
  arith,
  load32_agree m s a (λ x p q. h x p (omega arith)),
  load32_agree m s (a + 4) (λ x p q. h x (omega arith) (omega arith)),
)

pub segment_agree :
    (m s : Memory) (a : ℕ)
    → ((x : ℕ) → a ≤ x → x < a + 8 → s x ≡ m x)
    → segment_at s a ≡ segment_at m a
segment_agree m s a h = ground (
  arith,
  load32_agree m s a (λ x p q. h x p (omega arith)),
  load32_agree m s (a + 4) (λ x p q. h x (omega arith) (omega arith)),
)

-- An interrupt gate written for one number is read there, and the gates of the others stay.
set_id-gate_at :
    (n o d k : ℕ) (m : Memory)
    → n ≤ 0x7ff
    → o < 2 ^ 32
    → gate_at (set_id n 0x08 o d id_type_int m) (idt_base + k * 8)
      ≡ (if k == n then gate_for 0x08 o d id_type_int else gate_at m (idt_base + k * 8))
set_id-gate_at n o d k m hn ho =
    let l = set_id_lem n 0x08 o d id_type_int m hn (omega arith) ho (omega arith) in
    elim (Bool-cases (k == n)) [
      | inl same ↦ rw same (let e : k ≡ n = ground arith in rw e l.0)
      | inr other ↦ rw other (
          gate_agree m (set_id n 0x08 o d id_type_int m) (idt_base + k * 8)
            λ x p q. l.1 x (ground arith))
    ]

-- Which handler and which privilege each interrupt gets.
abbrev pub handler_for : Handlers → ℕ → ℕ
handler_for h n =
    if n == 0x00
    then h.de_isr
    else if n == 0x0c
    then h.ss_isr
    else if n == 0x0d
    then h.gp_isr
    else if n == 0x21
    then h.ps2_isr
    else if n == 0x40
    then h.server_isr
    else if n == 0x41
    then h.video_isr
    else if n == 0x42
    then h.device_isr
    else h.default_isr

abbrev pub privilege_for : ℕ → ℕ
privilege_for n = if n == 0x21 then 3 else if leb 0x40 n && leb n 0x42 then 3 else 0

-- The handlers lie below 4 GB.
pub record AreAddresses (h : Handlers) : Type 0 where
  pub default_isr-lt : h.default_isr < 2 ^ 32
  pub de_isr-lt : h.de_isr < 2 ^ 32
  pub ss_isr-lt : h.ss_isr < 2 ^ 32
  pub gp_isr-lt : h.gp_isr < 2 ^ 32
  pub ps2_isr-lt : h.ps2_isr < 2 ^ 32
  pub server_isr-lt : h.server_isr < 2 ^ 32
  pub video_isr-lt : h.video_isr < 2 ^ 32
  pub device_isr-lt : h.device_isr < 2 ^ 32

-- The loop fills the gates one after the other.
default_gates :
    (o : ℕ) (m : Memory)
    → o < 2 ^ 32
    → (k : ℕ) → k < 256
    → gate_at (for_range 256 0 (λ i s. set_system_int i o s) m) (idt_base + k * 8)
      ≡ gate_for 0x08 o 0 id_type_int
unfolding set_system_int
default_gates o m ho =
    for_range_inv
      (λ i s. (k : ℕ) → k < i → gate_at s (idt_base + k * 8) ≡ gate_for 0x08 o 0 id_type_int)
      (λ i s. set_system_int i o s) 0 256
      (λ i s _ l p k q. ground (arith, p k, set_id-gate_at i o 0 k s (omega arith) ho)) 256 0 m
      (omega arith) refl (λ k l. absurd (omega arith))

-- After `idt_init` the processor finds at each of the 256 interrupts the gate of its own handler in
-- the kernel's code segment; the keyboard and the three services 0x40 to 0x42 are open to user code.
pub idt_init-gate_at :
    (h : Handlers) (m : Memory)
    → AreAddresses h
    → (k : ℕ) → k < 256
    → gate_at (idt_init h m) (idt_base + k * 8)
      ≡ gate_for 0x08 (handler_for h k) (privilege_for k) id_type_int
unfolding idt_init
idt_init-gate_at h m a k l =
    let m0 = for_range 256 0 (λ i s. set_system_int i h.default_isr s) m in
    let m1 = set_system_int 0x00 h.de_isr m0 in
    let m2 = set_system_int 0x0c h.ss_isr m1 in
    let m3 = set_system_int 0x0d h.gp_isr m2 in
    let m4 = set_user_int 0x21 h.ps2_isr m3 in
    let m5 = set_user_int 0x40 h.server_isr m4 in
    let m6 = set_user_int 0x41 h.video_isr m5 in
    ground (
      arith,
      default_gates h.default_isr m a.default_isr-lt k l,
      set_id-gate_at 0x00 h.de_isr 0 k m0 (omega arith) a.de_isr-lt,
      set_id-gate_at 0x0c h.ss_isr 0 k m1 (omega arith) a.ss_isr-lt,
      set_id-gate_at 0x0d h.gp_isr 0 k m2 (omega arith) a.gp_isr-lt,
      set_id-gate_at 0x21 h.ps2_isr 3 k m3 (omega arith) a.ps2_isr-lt,
      set_id-gate_at 0x40 h.server_isr 3 k m4 (omega arith) a.server_isr-lt,
      set_id-gate_at 0x41 h.video_isr 3 k m5 (omega arith) a.video_isr-lt,
      set_id-gate_at 0x42 h.device_isr 3 k m6 (omega arith) a.device_isr-lt,
    )

set_id-frame :
    (n o d x : ℕ) (m : Memory)
    → n < 256
    → o < 2 ^ 32
    → (x < idt_base) ⊎ (idt_base + 2048 ≤ x)
    → set_id n 0x08 o d id_type_int m x ≡ m x
set_id-frame n o d x m hn ho out =
    (set_id_lem n 0x08 o d id_type_int m (omega arith) (omega arith) ho (omega arith)).1 x
      (omega arith)

-- Outside its 2048 bytes nothing changes.
pub idt_init-frame :
    (h : Handlers) (m : Memory) (x : ℕ)
    → AreAddresses h
    → (x < idt_base) ⊎ (idt_base + 2048 ≤ x)
    → idt_init h m x ≡ m x
unfolding idt_init
idt_init-frame h m x a out =
    let m0 = for_range 256 0 (λ i s. set_system_int i h.default_isr s) m in
    let m1 = set_system_int 0x00 h.de_isr m0 in
    let m2 = set_system_int 0x0c h.ss_isr m1 in
    let m3 = set_system_int 0x0d h.gp_isr m2 in
    let m4 = set_user_int 0x21 h.ps2_isr m3 in
    let m5 = set_user_int 0x40 h.server_isr m4 in
    let m6 = set_user_int 0x41 h.video_isr m5 in
    set_id-frame 0x42 h.device_isr 3 x m6 (omega arith) a.device_isr-lt out
    ∙ set_id-frame 0x41 h.video_isr 3 x m5 (omega arith) a.video_isr-lt out
    ∙ set_id-frame 0x40 h.server_isr 3 x m4 (omega arith) a.server_isr-lt out
    ∙ set_id-frame 0x21 h.ps2_isr 3 x m3 (omega arith) a.ps2_isr-lt out
    ∙ set_id-frame 0x0d h.gp_isr 0 x m2 (omega arith) a.gp_isr-lt out
    ∙ set_id-frame 0x0c h.ss_isr 0 x m1 (omega arith) a.ss_isr-lt out
    ∙ set_id-frame 0x00 h.de_isr 0 x m0 (omega arith) a.de_isr-lt out
    ∙ for_range_inv (λ i s. s x ≡ m x) (λ i s. set_system_int i h.default_isr s) 0 256
        (λ i s _ l p. set_id-frame i h.default_isr 0 x s l a.default_isr-lt out ∙ p) 256 0 m
        (omega arith) refl refl

-- A flat segment of 4 GB in the kernel's privilege.
abbrev pub flat : ℕ → Segment
flat kind = record {
  base = 0;
  limit = 0xfffff;
  granularity = 1;
  size = 1;
  is_present = 1;
  privilege = 0;
  normal = 1;
  kind = kind;
}

gdt_step :
    (n b l g s t d k : ℕ) (m : Memory)
    → n < 4
    → b < 2 ^ 32
    → l < 2 ^ 20
    → k ≢ n
    → segment_at (set_gd n b l g s t d m) (gdt_base + k * 8) ≡ segment_at m (gdt_base + k * 8)
gdt_step n b l g s t d k m hn hb hl ne =
    segment_agree m (set_gd n b l g s t d m) (gdt_base + k * 8)
      λ x p q. (set_gd_lem n b l g s t d m (omega arith) hb hl).1 x (ground arith)

-- Entries 1 and 2 are the kernel's flat code and data segments.
pub gdt_init-segment_at :
    (m : Memory)
    → (segment_at (gdt_init m) (gdt_base + 8) ≡ flat 0x0a)
      × (segment_at (gdt_init m) (gdt_base + 16) ≡ flat 0x02)
unfolding gdt_init
gdt_init-segment_at m =
    let m0 = set_gd 0 0 0 0 0 0 0 m in
    let m1 = set_gd 1 0 0xfffff 1 1 0x0a 0 m0 in
    let m2 = set_gd 2 0 0xfffff 1 1 0x02 0 m1 in
    (
      gdt_step 3 0 0 0 0 0 0 1 m2 (omega arith) (omega arith) (omega arith) (omega arith)
          ∙ gdt_step 2 0 0xfffff 1 1 0x02 0 1 m1 (omega arith) (omega arith) (omega arith)
              (omega arith)
          ∙ (set_gd_lem 1 0 0xfffff 1 1 0x0a 0 m0 (omega arith) (omega arith) (omega arith)).0,
      gdt_step 3 0 0 0 0 0 0 2 m2 (omega arith) (omega arith) (omega arith) (omega arith)
          ∙ (set_gd_lem 2 0 0xfffff 1 1 0x02 0 m1 (omega arith) (omega arith) (omega arith)).0,
    )

pub gdt_init-frame :
    (m : Memory) (x : ℕ) → (x < gdt_base) ⊎ (gdt_base + 32 ≤ x) → gdt_init m x ≡ m x
unfolding gdt_init
gdt_init-frame m x out =
    let m0 = set_gd 0 0 0 0 0 0 0 m in
    let m1 = set_gd 1 0 0xfffff 1 1 0x0a 0 m0 in
    let m2 = set_gd 2 0 0xfffff 1 1 0x02 0 m1 in
    (set_gd_lem 3 0 0 0 0 0 0 m2 (omega arith) (omega arith) (omega arith)).1 x (omega arith)
    ∙ (set_gd_lem 2 0 0xfffff 1 1 0x02 0 m1 (omega arith) (omega arith) (omega arith)).1 x
        (omega arith)
    ∙ (set_gd_lem 1 0 0xfffff 1 1 0x0a 0 m0 (omega arith) (omega arith) (omega arith)).1 x
        (omega arith)
    ∙ (set_gd_lem 0 0 0 0 0 0 0 m (omega arith) (omega arith) (omega arith)).1 x (omega arith)
