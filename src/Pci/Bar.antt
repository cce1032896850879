-- ===== src/Pci/Bar.antt =====
-- Include/device/PCI.h: `conf_bar`, which gives a base address register its place.
use open_ferain_os.Base.{
  ℕ, ◌+◌, ◌-◌, ◌%◌, ◌^◌, not, ◌==◌, if◌then◌else◌, bit_and, bit_or, u16, u32, not32, ◌<<<◌,
}
use open_ferain_os.Machine.{Devices, inpd}
use open_ferain_os.Console.{System}
use open_ferain_os.Pci.Space.{Inventory, read_config, write_config}

-- The bits of the command register that let the function use its addresses.
unfoldable pub enable : Devices → ℕ → ℕ → ℕ → ℕ → System → System
unfolding read_config write_config
enable hw i j k bits s =
    let (cmd, s) = read_config hw i j k 1 s in write_config i j k 1 (bit_or cmd bits) s

-- The next free place in memory, on 16 bytes, goes to register `reg` under the flags of `bar`.
unfoldable pub place_memory : ℕ → ℕ → ℕ → ℕ → ℕ → ℕ → Inventory × System → ℕ × Inventory × System
unfolding write_config
place_memory i j k reg bar bar_conf_size (v, s) =
    let sign_conf_base = bit_and (u32 (v.pcie_conf_mem_base + 0xf)) 0xfffffff0 in
    let v = record v { pcie_conf_mem_base = u32 (sign_conf_base + bar_conf_size) } in
    let flags = bit_and bar 0xf in
    let s = write_config i j k reg (bit_or (bit_and sign_conf_base 0xfffffff0) flags) s in
    (sign_conf_base, v, s)

unfoldable pub memory_bar :
    Devices → ℕ → ℕ → ℕ → ℕ → ℕ → ℕ → Inventory × System → ℕ × Inventory × System
unfolding place_memory enable
memory_bar hw i j k select bar size_mask p =
    let size_mask = bit_and size_mask 0xfffffff0 in
    let bar_conf_size = u32 (not32 size_mask + 1) in
    let (base, v, s) = place_memory i j k (4 + select) bar bar_conf_size p in
    (base, v, enable hw i j k 0x6 s)

unfoldable pub io_bar :
    Devices → ℕ → ℕ → ℕ → ℕ → ℕ → ℕ → Inventory × System → ℕ × Inventory × System
unfolding write_config enable
io_bar hw i j k select bar size_mask (v, s) =
    let size_mask = bit_and size_mask 0xfffffffc in
    let bar_conf_size = u32 (not32 size_mask + 1) in
    let sign_conf_base = u16 (bit_and (v.pcie_conf_io_base + 0x3) 0xfffffffc) in
    let v = record v { pcie_conf_io_base = u16 (sign_conf_base + bar_conf_size) } in
    let flags = bit_and bar 0x1 in
    let s = write_config i j k (4 + select) (bit_or (bit_and sign_conf_base 0xfffffffc) flags) s in
    (sign_conf_base, v, enable hw i j k 0x5 s)

-- The upper half of the size is read without giving the address again.
unfoldable pub memory64_bar :
    Devices → ℕ → ℕ → ℕ → ℕ → ℕ → ℕ → Inventory × System → ℕ × Inventory × System
unfolding read_config write_config place_memory enable inpd
memory64_bar hw i j k select bar size_mask (v, s) =
    let (bar_h, s) = read_config hw i j k (4 + select + 1) s in
    let s = write_config i j k (4 + select + 1) 0xffffffff s in
    let (size_mask_h, machine) = inpd hw 0xcfc s.machine in
    let s = write_config i j k (4 + select + 1) bar_h (record s { machine = machine }) in
    let mask64 = bit_or (size_mask_h <<< 32) (bit_and size_mask 0xfffffff0) in
    let size64 = (2 ^ 64 - 1 - mask64 + 1) % 2 ^ 64 in
    let (base, v, s) = place_memory i j k (4 + select) bar (u32 size64) (v, s) in
    let s = write_config i j k (4 + select + 1) 0 s in
    (base, record v { continue_flag = 1 }, enable hw i j k 0x6 s)

-- The register is read, and its size asked for; then the kind of address decides.
unfoldable pub set_bar : Devices → ℕ → ℕ → ℕ → ℕ → Inventory × System → ℕ × Inventory × System
unfolding read_config write_config memory_bar io_bar memory64_bar
set_bar hw i j k select (v, s) =
    let (bar, s) = read_config hw i j k (4 + select) s in
    let s = write_config i j k (4 + select) 0xffffffff s in
    let (size_mask, s) = read_config hw i j k (4 + select) s in
    let s = write_config i j k (4 + select) bar s in
    if bit_and bar 7 == 0x0
    then memory_bar hw i j k select bar size_mask (v, s)
    else if bit_and bar 1 == 0x1
    then io_bar hw i j k select bar size_mask (v, s)
    else if bit_and bar 7 == 0x4
    then memory64_bar hw i j k select bar size_mask (v, s)
    else (0, v, s)

-- `if(continue_flag = 1)return 0;` assigns, so the rest of the function, `set_bar`, is never reached.
unfoldable pub conf_bar : Devices → ℕ → ℕ → ℕ → ℕ → Inventory × System → ℕ × Inventory × System
unfolding set_bar
conf_bar hw i j k select (v, s) =
    let v = record v { continue_flag = 1 } in
    if not (v.continue_flag == 0) then (0, v, s) else set_bar hw i j k select (v, s)
