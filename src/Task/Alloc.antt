-- ===== src/Task/Alloc.antt =====
-- The allocators as their callers use them: search, then mark.
use open_ferain_os.Base.{ℕ, ◌-◌, ◌<◌, ◌≡◌, ◌≢◌, ◌⊎◌, inl, inr, arith, ◌==◌, if◌then◌else◌}
use open_ferain_os.Memory.{Memory, IsBytes}
use open_ferain_os.Task.Map.{
  map_write, map_scan, flag, map_size, not_available, mem_map_base, task_map_base, mem_map_write,
  task_num_write, get_available_page, get_available_task_num,
}
use open_ferain_os.Task.MapWrite.{map_write_flips, map_write-IsBytes}
use open_ferain_os.Task.MapScan.{IsLastFree, map_scan-IsLastFree}

-- The two maps agree on the numbers that a search covers.
abbrev pub SameFlags : ℕ → Memory → Memory → Type 0
SameFlags base m s = (k : ℕ) → k < map_size → flag base s k ≡ flag base m k

IsLastFree-unique :
    (base : ℕ) (m s : Memory) (r t : ℕ)
    → SameFlags base m s
    → IsLastFree base m map_size r
    → IsLastFree base s map_size t
    → t ≡ r
IsLastFree-unique base m s r t same (inl (e, all)) (inl (e', _)) = omega arith
IsLastFree-unique base m s r t same (inl (e, all)) (inr (l, z, _)) =
    absurd (omega (arith, same t l, all t l))
IsLastFree-unique base m s r t same (inr (l, z, all)) (inl (e', all')) =
    absurd (omega (arith, same r l, all' r l))
IsLastFree-unique base m s r t same (inr (l, z, all)) (inr (l', z', all')) =
    ground (arith, same r l, same t l', all t, all' r)

-- The search sees nothing but the flags.
pub map_scan_same :
    (base : ℕ) (m s : Memory)
    → IsBytes m
    → IsBytes s
    → SameFlags base m s
    → map_scan base s ≡ map_scan base m
map_scan_same base m s hm hs same =
    IsLastFree-unique base m s (map_scan base m) (map_scan base s) same
      (map_scan-IsLastFree base m hm) (map_scan-IsLastFree base s hs)

module _ (base : ℕ) (m s : Memory) (r : ℕ) (found : r ≢ not_available)
    (flips : (k : ℕ) → flag base s k ≡ (if k == r then 1 - flag base m k else flag base m k)) where
  smaller :
      (t : ℕ)
      → ((k : ℕ) → r < k → k < map_size → flag base m k ≡ 1)
      → flag base m r ≡ 0
      → IsLastFree base s map_size t
      → (t ≡ not_available) ⊎ (t < r)
  smaller t all free (inl (e, _)) = inl e
  smaller t all free (inr (l, z, _)) = ground (arith, flips t, all t)

  taken :
      (t : ℕ)
      → IsLastFree base m map_size r
      → IsLastFree base s map_size t
      → (flag base m r ≡ 0)
        × (flag base s r ≡ 1)
        × ((k : ℕ) → k ≢ r → flag base s k ≡ flag base m k)
        × ((t ≡ not_available) ⊎ (t < r))
  taken t (inl (e, _)) q = absurd (found e)
  taken t (inr (l, free, all)) q =
      (free, ground (arith, flips r), λ k ne. ground (arith, flips k), smaller t all free q)

map_write-map_scan :
    (base : ℕ) (m : Memory)
    → IsBytes m
    → map_scan base m ≢ not_available
    → let r = map_scan base m in
      let s = map_write base r m in
      (flag base m r ≡ 0)
      × (flag base s r ≡ 1)
      × ((k : ℕ) → k ≢ r → flag base s k ≡ flag base m k)
      × ((map_scan base s ≡ not_available) ⊎ (map_scan base s < r))
map_write-map_scan base m h found =
    let s = map_write base (map_scan base m) m in
    taken base m s (map_scan base m) found (map_write_flips base (map_scan base m) m h).0
      (map_scan base s) (map_scan-IsLastFree base m h)
      (map_scan-IsLastFree base s (map_write-IsBytes base (map_scan base m) m h))

-- Marking the page that a successful search found takes it: its flag was 0 and is 1, all other
-- flags stay, and the next search finds a page with a smaller number or none.
pub mem_map_write-get_available_page :
    (m : Memory)
    → IsBytes m
    → get_available_page m ≢ not_available
    → let p = get_available_page m in
      let s = mem_map_write p m in
      (flag mem_map_base m p ≡ 0)
      × (flag mem_map_base s p ≡ 1)
      × ((k : ℕ) → k ≢ p → flag mem_map_base s k ≡ flag mem_map_base m k)
      × ((get_available_page s ≡ not_available) ⊎ (get_available_page s < p))
unfolding get_available_page mem_map_write
mem_map_write-get_available_page = map_write-map_scan mem_map_base

-- The same for task numbers.
pub task_num_write-get_available_task_num :
    (m : Memory)
    → IsBytes m
    → get_available_task_num m ≢ not_available
    → let n = get_available_task_num m in
      let s = task_num_write n m in
      (flag task_map_base m n ≡ 0)
      × (flag task_map_base s n ≡ 1)
      × ((k : ℕ) → k ≢ n → flag task_map_base s k ≡ flag task_map_base m k)
      × ((get_available_task_num s ≡ not_available) ⊎ (get_available_task_num s < n))
unfolding get_available_task_num task_num_write
task_num_write-get_available_task_num = map_write-map_scan task_map_base
