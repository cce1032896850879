-- ===== src/Task/Number.antt =====
-- The task number that `creat_task` picks.
use open_ferain_os.Base.{ℕ, ◌+◌, ◌-◌, ◌*◌, ◌≡◌, inl, inr, arith}
use open_ferain_os.Memory.{Memory, IsBytes}
use open_ferain_os.Descriptor.{set_gd}
use open_ferain_os.Task.Map.{map_scan, flag, map_size, task_map_base, get_available_task_num}
use open_ferain_os.Task.MapScan.{IsLastFree, map_scan-IsLastFree}

-- On a map whose last number is free, as after boot, the number chosen is 1048575; the two descriptors
-- of such a task lie past the number check of `set_gd`, which writes neither of them.
pub new_task_has_no_descriptor :
    (m : Memory)
    → IsBytes m
    → flag task_map_base m (map_size - 1) ≡ 0
    → let n = get_available_task_num m in
      (n ≡ map_size - 1)
      × ((b l g st t d : ℕ) (s : Memory)
          → (set_gd (4 + n * 2) b l g st t d s ≡ s) × (set_gd (5 + n * 2) b l g st t d s ≡ s))
unfolding get_available_task_num
new_task_has_no_descriptor m h free =
    beyond (map_scan task_map_base m) (map_scan-IsLastFree task_map_base m h)
  where
    beyond :
        (r : ℕ)
        → IsLastFree task_map_base m map_size r
        → (r ≡ map_size - 1)
          × ((b l g st t d : ℕ) (s : Memory)
              → (set_gd (4 + r * 2) b l g st t d s ≡ s) × (set_gd (5 + r * 2) b l g st t d s ≡ s))
    beyond r (inl (_, all)) = absurd (omega (arith, all (map_size - 1) (omega arith)))
    beyond r (inr (l, z, all)) =
        let e : r ≡ map_size - 1 = ground (arith, all (map_size - 1)) in
        (e, λ b lim g st t d s. unfold set_gd in ground arith)
