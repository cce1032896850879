-- ===== src/Task/Stores.antt =====
-- What the stores for the first task after a start leave alone.
use open_ferain_os.Base.{
  ℕ, ◌+◌, ◌-◌, ◌*◌, ◌/◌, ◌^◌, ◌≤◌, ◌<◌, ◌≡◌, ◌⊎◌, ◌∙◌, refl, ap, inl, inr, arith, u32, ◌==◌,
  if◌then◌else◌, List, [], ◌∷◌,
}
use open_ferain_os.Memory.{Memory, IsBytes, store8_outside, store16_outside, store32_outside}
use open_ferain_os.Descriptor.{set_gd}
use open_ferain_os.Paging.{pde_set, pte_set, page_entry}
use open_ferain_os.Task.Map.{
  map_scan, flag, map_size, mem_map_base, task_map_base, mem_map_write, task_num_write,
}
use open_ferain_os.Task.MapWrite.{map_write_flips, map_write-IsBytes}
use open_ferain_os.Task.MapScan.{IsLastFree, map_scan-IsLastFree}
use open_ferain_os.Task.Create.{
  fill_task, write_ldt, assign, assign_all, Assignment, byte, half, word, temp_pt_base,
  task_ldt_base, task_data_fields, tss_fields,
}

pub pte_set_refused : (i base a us w p : ℕ) (m : Memory) → 1023 < i → pte_set i base a us w p m ≡ m
unfolding pte_set
pte_set_refused i base a us w p m h = ground arith

-- Stores to a structure leave what lies below it.
assign_below : (base x : ℕ) (a : Assignment) (m : Memory) → x < base → assign base a m x ≡ m x
unfolding assign
assign_below base x (byte offset v) m h = store8_outside m (base + offset) v x (λ e. omega arith)
assign_below base x (half offset v) m h = store16_outside m (base + offset) v x (inl (omega arith))
assign_below base x (word offset v) m h = store32_outside m (base + offset) v x (inl (omega arith))

assign_all_below :
    (base x : ℕ) (fields : List Assignment) (m : Memory)
    → x < base
    → assign_all base fields m x ≡ m x
unfolding assign_all
assign_all_below base x [] m h = refl
assign_all_below base x (a ∷ fields) m h =
    assign_all_below base x fields (assign base a m) h ∙ assign_below base x a m h

write_ldt_frame :
    (code x : ℕ) (m : Memory)
    → (x < task_ldt_base + 8) ⊎ (task_ldt_base + 24 ≤ x)
    → write_ldt code m x ≡ m x
unfolding write_ldt
write_ldt_frame code x m o =
    store32_outside _ (task_ldt_base + 20) _ x (omega arith)
    ∙ store32_outside _ (task_ldt_base + 16) _ x (omega arith)
    ∙ store32_outside _ (task_ldt_base + 12) _ x (omega arith)
    ∙ store32_outside m (task_ldt_base + 8) _ x (omega arith)

pub set_gd_refused :
    (b l g st t d : ℕ) (m : Memory)
    → (set_gd 2097154 b l g st t d m ≡ m) × (set_gd 2097155 b l g st t d m ≡ m)
unfolding set_gd
set_gd_refused b l g st t d m = ground arith

pub pde_set_below :
    (i base a us w p x : ℕ) (m : Memory)
    → x < base
    → base + 4096 ≤ 2 ^ 32
    → pde_set i base a us w p m x ≡ m x
unfolding pde_set
pde_set_below i base a us w p x m low h =
    ground (arith, store32_outside m (u32 (base + i * 4)) (page_entry a us w p) x)

-- The stores of the first task's structures: below 0x7ffff0 only the local table changes.
pub fill_task_frame :
    (priority x : ℕ) (m : Memory)
    → x < 0x7ffff0
    → (x < task_ldt_base + 8) ⊎ (task_ldt_base + 24 ≤ x)
    → fill_task priority 1048575 0x7ffff8 0x7ffff0 0x7fffe8 m x ≡ m x
unfolding fill_task
fill_task_frame priority x m low o =
    let at = λ (f g : Memory) (e : f ≡ g). ap (λ (h : Memory). h x) e in
    let m1 = pde_set 1 0x7ffff0 0x7ffff8 1 0 1 m in
    let m2 = pte_set 524286 temp_pt_base 0x7ffff0 0 1 1 m1 in
    let m3 = pte_set 524285 0x7ffff0 0x7fffe8 1 0 1 m2 in
    let m4 = pte_set 524285 temp_pt_base 0x7fffe8 0 1 1 m3 in
    let m5 = assign_all 0x8004f80 (task_data_fields priority 0x7fffe8) m4 in
    let m6 = set_gd 2097154 0x2014fe0 0x1f 0 0 2 0 m5 in
    let m7 = set_gd 2097155 0x8004f87 0x67 0 0 9 0 m6 in
    let m8 = write_ldt 0x7fffe8 m7 in
    assign_all_below 0x8004f87 x (tss_fields 0x7ffff8 1048575) m8 (omega arith)
    ∙ write_ldt_frame 0x7fffe8 x m7 o
    ∙ at m7 m6 (set_gd_refused 0x8004f87 0x67 0 0 9 0 m6).1
    ∙ at m6 m5 (set_gd_refused 0x2014fe0 0x1f 0 0 2 0 m5).0
    ∙ assign_all_below 0x8004f80 x (task_data_fields priority 0x7fffe8) m4 (omega arith)
    ∙ at m4 m3 (pte_set_refused 524285 temp_pt_base 0x7fffe8 0 1 1 m3 (omega arith))
    ∙ at m3 m2 (pte_set_refused 524285 0x7ffff0 0x7fffe8 1 0 1 m2 (omega arith))
    ∙ at m2 m1 (pte_set_refused 524286 temp_pt_base 0x7ffff0 0 1 1 m1 (omega arith))
    ∙ pde_set_below 1 0x7ffff0 0x7ffff8 1 0 1 x m low (omega arith)

-- The search on a map whose free numbers end with `r`.
pub map_scan_last :
    (base r : ℕ) (m : Memory)
    → IsBytes m
    → r < map_size
    → flag base m r ≡ 0
    → ((k : ℕ) → r < k → k < map_size → flag base m k ≡ 1)
    → map_scan base m ≡ r
map_scan_last base r m b l free used = only (map_scan base m) (map_scan-IsLastFree base m b)
  where
    only : (t : ℕ) → IsLastFree base m map_size t → t ≡ r
    only t (inl (_, all)) = absurd (omega (arith, all r l))
    only t (inr (tl, z, all)) = ground (arith, all r, used t)

-- A memory of bytes with the flags of both maps, and the temporary page table.
pub record IsMapped (pages numbers : ℕ → ℕ) (m s : Memory) : Type 0 where
  pub bytes : IsBytes s
  pub page_flags : (k : ℕ) → k < map_size → flag mem_map_base s k ≡ pages k
  pub number_flags : (k : ℕ) → k < map_size → flag task_map_base s k ≡ numbers k
  pub unmapped : (x : ℕ) → temp_pt_base ≤ x → x < temp_pt_base + 4096 → s x ≡ m x

-- A store above both maps and the table.
pub IsMapped-same :
    (pages numbers : ℕ → ℕ) (m s t : Memory)
    → IsMapped pages numbers m s
    → IsBytes t
    → ((x : ℕ) → 0x20000 ≤ x → x < 0x70000 → t x ≡ s x)
    → IsMapped pages numbers m t
IsMapped-same pages numbers m s t h b same = record {
  bytes = b;
  page_flags = λ k l. ground (arith, same (mem_map_base + k / 8), h.page_flags k l);
  number_flags = λ k l. ground (arith, same (task_map_base + k / 8), h.number_flags k l);
  unmapped = λ x p q. same x (omega arith) (omega arith) ∙ h.unmapped x p q;
}

-- Marking a free page.
pub IsMapped-page :
    (p : ℕ) (pages numbers : ℕ → ℕ) (m s : Memory)
    → IsMapped pages numbers m s
    → p < map_size
    → IsMapped (λ k. if k == p then 1 - pages k else pages k) numbers m (mem_map_write p s)
unfolding mem_map_write
IsMapped-page p pages numbers m s h l =
    let f = map_write_flips mem_map_base p s h.bytes in
    record {
      bytes = map_write-IsBytes mem_map_base p s h.bytes;
      page_flags = λ k kl. ground (arith, f.0 k, h.page_flags k kl);
      number_flags = λ k kl. ground (arith, f.1 (task_map_base + k / 8), h.number_flags k kl);
      unmapped = λ x a b. f.1 x (λ e. omega arith) ∙ h.unmapped x a b;
    }

pub IsMapped-number :
    (n : ℕ) (pages numbers : ℕ → ℕ) (m s : Memory)
    → IsMapped pages numbers m s
    → n < map_size
    → IsMapped pages (λ k. if k == n then 1 - numbers k else numbers k) m (task_num_write n s)
unfolding task_num_write
IsMapped-number n pages numbers m s h l =
    let f = map_write_flips task_map_base n s h.bytes in
    record {
      bytes = map_write-IsBytes task_map_base n s h.bytes;
      page_flags = λ k kl. ground (arith, f.1 (mem_map_base + k / 8), h.page_flags k kl);
      number_flags = λ k kl. ground (arith, f.0 k, h.number_flags k kl);
      unmapped = λ x a b. f.1 x (λ e. omega arith) ∙ h.unmapped x a b;
    }
