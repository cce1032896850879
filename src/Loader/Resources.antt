-- ===== src/Loader/Resources.antt =====
-- What the loader has released when it returns.
use open_ferain_os.Base.{ℕ, not, ◌+◌, ◌-◌, ◌≡◌, Bool, true, false, List, [], ◌∷◌, inl}
use open_ferain_os.Loader.{
  Firmware, Event, handles_located, handles_freed, pages_allocated, pages_freed, map_allocated,
  map_freed, kernel_started, efi_error,
}

-- Resources held: the handle buffer, the pages and the memory map.
pub record Held : Type 0 where
  pub handles : ℕ
  pub pages : ℕ
  pub maps : ℕ

abbrev pub held : List Event → Held → Held
held [] r = r
held (handles_located ∷ t) r = held t (record r { handles = r.handles + 1 })
held (handles_freed ∷ t) r = held t (record r { handles = r.handles - 1 })
held (pages_allocated a n ∷ t) r = held t (record r { pages = r.pages + n })
held (pages_freed a n ∷ t) r = held t (record r { pages = r.pages - n })
held (map_allocated ∷ t) r = held t (record r { maps = r.maps + 1 })
held (map_freed ∷ t) r = held t (record r { maps = r.maps - 1 })
held (_ ∷ t) r = held t r

abbrev pub nothing : Held
nothing = record { handles = 0; pages = 0; maps = 0 }

-- Whether the kernel was started.
abbrev pub starts : List Event → Bool
starts [] = false
starts (kernel_started ∷ t) = true
starts (_ ∷ t) = starts t

-- An error leaves nothing of what was held, and only success starts the kernel.
abbrev pub IsReleased : ℕ × List Event → Held → Type 0
IsReleased (status, events) before =
    (efi_error status ≡ true → held events before ≡ nothing)
    × (starts events ≡ not (efi_error status))

abbrev hold : ℕ → Held
hold n = record { handles = 0; pages = n; maps = 0 }

-- Allocation failures have the error bit, as the firmware's interface says.
abbrev pub FailuresAreErrors : Firmware → Type 0
FailuresAreErrors fw =
    ((status : ℕ) → fw.locate_handle_buffer ≡ inl status → efi_error status ≡ true)
    × ((pages status : ℕ) → fw.allocate_pages pages ≡ inl status → efi_error status ≡ true)
