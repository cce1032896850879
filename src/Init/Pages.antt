-- ===== src/Init/Pages.antt =====
-- The page map after `mem_map_init`.
use open_ferain_os.Base.{ℕ, ◌+◌, ◌-◌, ◌≤◌, ◌<◌, ◌≡◌, ◌⊎◌, arith, refl, for_range, for_range_inv}
use open_ferain_os.Memory.{Memory, IsBytes}
use open_ferain_os.Task.Map.{flag, mem_map_base, mem_map_write}
use open_ferain_os.Task.MapWrite.{map_write_flips, map_write-IsBytes}
use open_ferain_os.Init.{mem_map_init}

-- After the numbers below `n` were marked: their flags are flipped, and no other flag.
record AreMarked (m : Memory) (n : ℕ) (s : Memory) : Type 0 where
  bytes : IsBytes s
  marked : (k : ℕ) → k < n → flag mem_map_base s k ≡ 1 - flag mem_map_base m k
  others : (k : ℕ) → n ≤ k → flag mem_map_base s k ≡ flag mem_map_base m k
  outside : (x : ℕ) → (x < mem_map_base) ⊎ (mem_map_base + 128 ≤ x) → s x ≡ m x

mark_step :
    (m : Memory) (i : ℕ) (s : Memory)
    → i < 1024
    → AreMarked m i s
    → AreMarked m (i + 1) (mem_map_write i s)
unfolding mem_map_write
mark_step m i s l h =
    let f = map_write_flips mem_map_base i s h.bytes in
    record {
      bytes = map_write-IsBytes mem_map_base i s h.bytes;
      marked = λ k q. ground (arith, f.0 k, h.marked k, h.others k);
      others = λ k q. ground (arith, f.0 k, h.others k);
      outside = λ x q. ground (arith, f.1 x, h.outside x);
    }

-- On a map whose first 1024 flags are clear, `mem_map_init` marks exactly the pages of the low 4 MB
-- as used: their flags become 1, no other flag changes, and no byte outside the first 128 of the map.
pub mem_map_init_lem :
    (m : Memory)
    → IsBytes m
    → ((k : ℕ) → k < 1024 → flag mem_map_base m k ≡ 0)
    → ((k : ℕ) → k < 1024 → flag mem_map_base (mem_map_init m) k ≡ 1)
      × ((k : ℕ) → 1024 ≤ k → flag mem_map_base (mem_map_init m) k ≡ flag mem_map_base m k)
      × ((x : ℕ) → (x < mem_map_base) ⊎ (mem_map_base + 128 ≤ x) → mem_map_init m x ≡ m x)
unfolding mem_map_init
mem_map_init_lem m h clear =
    let a : AreMarked m 1024 (for_range 1024 0 mem_map_write m) =
      for_range_inv (AreMarked m) mem_map_write 0 1024 (λ i s _ l p. mark_step m i s l p) 1024 0 m
        (omega arith) refl
        (record {
          bytes = h;
          marked = λ k q. absurd (omega arith);
          others = λ k q. refl;
          outside = λ x q. refl;
        }) in
    (λ k l. ground (arith, a.marked k, clear k), a.others, a.outside)

pub mem_map_init-IsBytes : (m : Memory) → IsBytes m → IsBytes (mem_map_init m)
unfolding mem_map_init mem_map_write
mem_map_init-IsBytes m h =
    for_range_inv (λ i s. IsBytes s) mem_map_write 0 1024
      (λ i s _ _ p. map_write-IsBytes mem_map_base i s p) 1024 0 m (omega arith) refl h
