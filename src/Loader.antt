-- ===== src/Loader.antt =====
-- UEFIBIOS/OpenFerainOSPkg/entry.c: the loader's UefiMain, as RCOS_UEFI_Pkg.dsc builds it, for IA32: a
-- status and a size have 32 bits. The boot services belong to the firmware: their answers are a
-- parameter, and the calls are kept in order.
pub mod Resources
mod Examples
use open_ferain_os.Base.{
  ℕ, ◌+◌, ◌*◌, ◌/◌, ◌%◌, ◌^◌, u32, Bool, true, false, List, [], ◌∷◌, ◌++◌, ◌==◌, leb, if◌then◌else◌,
  Option, none, some, ◌⊎◌, inl, inr,
}

-- `EFI_ERROR`: the highest bit of a status.
abbrev pub efi_error : ℕ → Bool
efi_error status = leb (2 ^ 31) status

abbrev pub efi_success : ℕ
efi_success = 0

abbrev pub efi_buffer_too_small : ℕ
efi_buffer_too_small = 0x80000005

abbrev pub efi_out_of_resources : ℕ
efi_out_of_resources = 0x80000009

abbrev pub efi_not_found : ℕ
efi_not_found = 0x8000000e

-- What the loader reads of a block device.
pub record BlockIo : Type 0 where
  pub logical_partition : Bool
  pub read_only : Bool
  pub block_size : ℕ

-- The answers of the firmware: an error status, or what the call gives.
pub record Firmware : Type 0 where
  pub locate_handle_buffer : ℕ ⊎ List ℕ
  pub handle_protocol : ℕ → Option BlockIo
  pub allocate_pages : ℕ → ℕ ⊎ ℕ
  pub read_blocks : BlockIo → ℕ → ℕ → ℕ → ℕ
  pub get_memory_map : ℕ → ℕ × ℕ × ℕ
  pub allocate_pool : ℕ → Bool
  pub exit_boot_services : ℕ → ℕ

pub data Event : Type 0 where
  handles_located : Event
  handles_freed : Event
  pages_allocated : ℕ → ℕ → Event
  pages_freed : ℕ → ℕ → Event
  blocks_read : ℕ → ℕ → ℕ → Event
  map_allocated : Event
  map_freed : Event
  null_freed : Event
  services_left : Event
  kernel_started : Event

-- The loop over the handles: the first device that is no partition and can be written.
unfoldable pub find_disk : (ℕ → Option BlockIo) → List ℕ → Option BlockIo
find_disk protocol [] = none
find_disk protocol (handle ∷ handles) =
    let rest = find_disk protocol handles in
    elim (protocol handle) [
      | none ↦ rest
      | some io ↦ if io.logical_partition then rest else if io.read_only then rest else some io
    ]

-- From the memory map on; `map` tells whether MemMap is allocated.
abbrev free_map : Bool → List Event
free_map true = map_freed ∷ []
free_map false = []

unfoldable pub leave : Firmware → ℕ → ℕ → Bool → ℕ → ℕ → ℕ × List Event
leave fw address pages map status key =
    let left = fw.exit_boot_services key in
    if efi_error status
    then (status, pages_freed address pages ∷ free_map map)
    else if efi_error left
    then (left, pages_freed address pages ∷ (if map then map_freed else null_freed) ∷ [])
    else (efi_success, services_left ∷ kernel_started ∷ [])

unfoldable pub read_map : Firmware → ℕ → ℕ → ℕ × List Event
unfolding leave
read_map fw address pages =
    let (status, size, key) = fw.get_memory_map 0 in
    let (status2, size2, key2) = fw.get_memory_map size in
    let filled = leave fw address pages true status2 key2 in
    if status == efi_buffer_too_small
    then if fw.allocate_pool size
      then (filled.0, map_allocated ∷ filled.1)
      else leave fw address pages false efi_out_of_resources key
    else leave fw address pages false status key

-- `8 * BlockSize` on `UINT32`.
abbrev pub buffer_size : BlockIo → ℕ
buffer_size io = u32 (8 * io.block_size)

-- `EFI_SIZE_TO_PAGES`.
abbrev pub size_to_pages : ℕ → ℕ
size_to_pages size = size / 4096 + (if size % 4096 == 0 then 0 else 1)

-- The pages are freed at `TargetAddr`; the read gets its lower 32 bits, a pointer.
unfoldable pub load_kernel : Firmware → BlockIo → ℕ × List Event
unfolding read_map
load_kernel fw io =
    let size = buffer_size io in
    let pages = size_to_pages size in
    elim (fw.allocate_pages pages) [
      | inl status ↦ (status, [])
      | inr address ↦
          let status = fw.read_blocks io 1 size (u32 address) in
          let (result, events) = read_map fw address pages in
          if efi_error status
          then (
            status,
            pages_allocated address pages
                ∷ blocks_read 1 size (u32 address)
                ∷ pages_freed address pages
                ∷ [],
          )
          else (result, pages_allocated address pages ∷ blocks_read 1 size (u32 address) ∷ events)
    ]

unfoldable pub uefi_main : Firmware → ℕ × List Event
unfolding find_disk load_kernel
uefi_main fw = elim fw.locate_handle_buffer [
  | inl status ↦ (status, [])
  | inr handles ↦ elim (find_disk fw.handle_protocol handles) [
    | none ↦ (efi_not_found, handles_located ∷ handles_freed ∷ [])
    | some io ↦
        let (status, events) = load_kernel fw io in
        (status, handles_located ∷ handles_freed ∷ events)
  ]
]
