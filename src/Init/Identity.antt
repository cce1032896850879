-- ===== src/Init/Identity.antt =====
-- The page tables after `paging_init`: what the processor's walk finds for each linear address.
use open_ferain_os.Base.{
  ℕ, ◌+◌, ◌*◌, ◌/◌, ◌%◌, ◌^◌, ◌≤◌, ◌<◌, ◌≡◌, ◌⊎◌, arith, refl, some, u32, for_range, for_range_inv,
}
use open_ferain_os.Memory.{Memory, load32, load32-store32, load32-store32_ne, store32_outside}
use open_ferain_os.Paging.{pde_set, pte_set, page_entry}
use open_ferain_os.Paging.Walk.{translate}
use open_ferain_os.Paging.Laws.{page_entry_value, pte_set_stores, pde_set_stores}
use open_ferain_os.Init.{page_tables_init}

-- The word of the entry at number `k` of the table at `base`.
abbrev entry : ℕ → Memory → ℕ → ℕ
entry base m k = load32 m (base + k * 4)

-- After the directory's entries below `n`: they link the tables, and all else is as before.
record HasDirectory (m : Memory) (n : ℕ) (s : Memory) : Type 0 where
  first : entry 0 s 0 ≡ 0x1003
  others : (k : ℕ) → 1 ≤ k → k < n → entry 0 s k ≡ 0x48003
  last : (k : ℕ) → n ≤ k → entry 0 s k ≡ entry 0 m k
  outside : (x : ℕ) → 4096 ≤ x → s x ≡ m x

-- After the table's entries below `n`: they map each page to itself.
record HasTable (m : Memory) (n : ℕ) (s : Memory) : Type 0 where
  mapped : (k : ℕ) → k < n → entry 0x1000 s k ≡ k * 4096 + 3
  directory : (k : ℕ) → k < 1024 → entry 0 s k ≡ entry 0 m k
  outside : (x : ℕ) → (x < 0x1000) ⊎ (0x2000 ≤ x) → s x ≡ m x

pde_step :
    (m : Memory) (i : ℕ) (s : Memory)
    → 1 ≤ i
    → i < 1023
    → HasDirectory m i s
    → HasDirectory m (i + 1) (pde_set i 0 0x48000 0 1 1 s)
pde_step m i s lo hi h =
    let e : page_entry 0x48000 0 1 1 ≡ 0x48003 = omega (arith, page_entry_value 0x48000 0 1 1) in
    rw (pde_set_stores i 0 0x48000 0 1 1 s (omega arith) (omega arith), e)
      (record {
        first = ground (arith, h.first, load32-store32_ne s (0 + i * 4) 0x48003 0);
        others = λ k p q. ground (
          arith,
          h.others k,
          load32-store32 s (0 + i * 4) 0x48003 (omega arith),
          load32-store32_ne s (0 + i * 4) 0x48003 (0 + k * 4),
        );
        last = λ k p. ground (arith, h.last k, load32-store32_ne s (0 + i * 4) 0x48003 (0 + k * 4));
        outside = λ x p. ground (arith, h.outside x, store32_outside s (0 + i * 4) 0x48003 x);
      })

pte_step :
    (m : Memory) (i : ℕ) (s : Memory)
    → i < 1024
    → HasTable m i s
    → HasTable m (i + 1) (pte_set i 0x1000 (u32 (i * 0x1000)) 0 1 1 s)
pte_step m i s hi h =
    let v = i * 4096 + 3 in
    let e : page_entry (u32 (i * 0x1000)) 0 1 1 ≡ v =
      omega (arith, page_entry_value (u32 (i * 0x1000)) 0 1 1) in
    rw (pte_set_stores i 0x1000 (u32 (i * 0x1000)) 0 1 1 s hi (omega arith), e)
      (record {
        mapped = λ k q. ground (
          arith,
          h.mapped k,
          load32-store32 s (0x1000 + i * 4) v (omega arith),
          load32-store32_ne s (0x1000 + i * 4) v (0x1000 + k * 4),
        );
        directory = λ k p.
            ground (arith, h.directory k, load32-store32_ne s (0x1000 + i * 4) v (0 + k * 4));
        outside = λ x p. ground (arith, h.outside x, store32_outside s (0x1000 + i * 4) v x);
      })

-- The tables that `paging_init` leaves, in the processor's terms.
pub record IsIdentity (m s : Memory) : Type 0 where
  pub identity : (v : ℕ) → v < 2 ^ 22 → translate s 0 v ≡ some v
  pub first : load32 s 0 ≡ 0x1003
  pub temporary : (k : ℕ) → 1 ≤ k → k < 1023 → load32 s (k * 4) ≡ 0x48003
  pub last : load32 s (1023 * 4) ≡ load32 m (1023 * 4)
  pub outside : (x : ℕ) → 0x2000 ≤ x → s x ≡ m x

first_entry : (m : Memory) → HasDirectory m 1 (pde_set 0 0 0x1000 0 1 1 m)
first_entry m =
    let e : page_entry 0x1000 0 1 1 ≡ 0x1003 = omega (arith, page_entry_value 0x1000 0 1 1) in
    rw (pde_set_stores 0 0 0x1000 0 1 1 m (omega arith) (omega arith), e)
      (record {
        first = load32-store32 m 0 0x1003 (omega arith);
        others = λ k p q. absurd (omega arith);
        last = λ k p. load32-store32_ne m 0 0x1003 (0 + k * 4) (omega arith);
        outside = λ x p. store32_outside m 0 0x1003 x (omega arith);
      })

-- After `paging_init` the walk takes every linear address of the first 4 MB to itself. The
-- directory's entry 0 links the kernel's page table, its entries 1 to 1022 hold the temporary page
-- table, present and writable for the kernel; its last entry, 1023, and all memory from 0x2000 on
-- are as before.
pub page_tables_init-IsIdentity : (m : Memory) → IsIdentity m (page_tables_init m)
unfolding page_tables_init
page_tables_init-IsIdentity m =
    let m1 = pde_set 0 0 0x1000 0 1 1 m in
    let m2 = for_range 1022 1 (λ i s. pde_set i 0 0x48000 0 1 1 s) m1 in
    let d : HasDirectory m 1023 m2 =
      for_range_inv (HasDirectory m) (λ i s. pde_set i 0 0x48000 0 1 1 s) 1 1023
        (λ i s p q h. pde_step m i s p q h) 1022 1 m1 (omega arith) refl (first_entry m) in
    let m3 = for_range 1024 0 (λ i s. pte_set i 0x1000 (u32 (i * 0x1000)) 0 1 1 s) m2 in
    let t : HasTable m2 1024 m3 =
      for_range_inv (HasTable m2) (λ i s. pte_set i 0x1000 (u32 (i * 0x1000)) 0 1 1 s) 0 1024
        (λ i s _ q h. pte_step m2 i s q h) 1024 0 m2 (omega arith) refl
        (record {
          mapped = λ k q. absurd (omega arith);
          directory = λ k p. refl;
          outside = λ x p. refl;
        }) in
    assemble m m2 m3 d t
  where
    assemble : (m m2 m3 : Memory) → HasDirectory m 1023 m2 → HasTable m2 1024 m3 → IsIdentity m m3
    assemble m m2 m3 d t = record {
      identity = λ v l.
          unfold translate in ground (arith, t.directory 0, d.first, t.mapped (v / 2 ^ 12 % 1024));
      first = ground (arith, t.directory 0, d.first);
      temporary = λ k p q. ground (arith, t.directory k, d.others k);
      last = ground (arith, t.directory 1023, d.last 1023);
      outside = λ x p. ground (arith, t.outside x, d.outside x);
    }
