-- ===== src/Loader/Examples.antt =====
-- A firmware with one disk that can be read, and one whose reads fail.
use open_ferain_os.Base.{ℕ, ◌≡◌, refl, true, false, [], ◌∷◌, none, some, inr, ◌==◌, if◌then◌else◌}
use open_ferain_os.Loader.{
  Firmware, BlockIo, handles_located, handles_freed, pages_allocated, blocks_read, map_allocated,
  services_left, kernel_started, uefi_main, find_disk, load_kernel, read_map, leave,
  efi_buffer_too_small, efi_success,
}

abbrev disk : BlockIo
disk = record { logical_partition = false; read_only = false; block_size = 512 }

abbrev firmware : ℕ → Firmware
firmware read = record {
  locate_handle_buffer = inr (7 ∷ 8 ∷ []);
  handle_protocol = λ h. if h == 8 then some disk else none;
  allocate_pages = λ n. inr 0x100000;
  read_blocks = λ io lba size address. read;
  get_memory_map = λ size. if size == 0 then (efi_buffer_too_small, 480, 0) else (0, 480, 77);
  allocate_pool = λ size. true;
  exit_boot_services = λ key. 0;
}

loader_runs :
    (uefi_main (firmware 0) ≡ (
      efi_success,
      handles_located
          ∷ handles_freed
          ∷ pages_allocated 0x100000 1
          ∷ blocks_read 1 4096 0x100000
          ∷ map_allocated
          ∷ services_left
          ∷ kernel_started
          ∷ [],
    ))
    × ((uefi_main (firmware (0x80000007))).0 ≡ 0x80000007)
unfolding uefi_main find_disk load_kernel read_map leave
loader_runs = (refl, refl)
