-- ===== src/Pci/Survey.antt =====
-- What an enumeration should find: the functions of a configuration space, numbered by bus, device
-- and function, that answer with a vendor.
use open_ferain_os.Base.{
  ℕ, zero, suc, ◌+◌, ◌/◌, ◌%◌, ◌^◌, ◌≤◌, ◌<◌, ◌≡◌, Bool, List, [], ◌∷◌, ◌++◌, length, get_or, ◌==◌,
  if◌then◌else◌, not, ◌&&◌, bit_and, u16, ◌>>>◌, Option, none, some,
}
use open_ferain_os.Machine.{Devices, out32, PortEvent}
use open_ferain_os.Pci.{
  PcieDevice, Table, Inventory, convert_to_32data, class_usb, class_ide, class_sata_bus,
  class_isa_bridge, class_pci_bridge, class_ieee1394, class_sd_host,
}

-- The register of a function, by bus, device, function and register.
abbrev pub Config : Type 0
Config = ℕ → ℕ → ℕ → ℕ → ℕ

-- The host bridge answers 0xCFC with the register addressed last.
abbrev pub Answers : Config → Devices → Type 0
Answers config hw =
    (i j k reg : ℕ) (t : List PortEvent)
    → i < 256
    → j < 32
    → k < 8
    → reg < 64
    → hw.answer32 (out32 0xcf8 (convert_to_32data i j k reg) ∷ t) 0xcfc ≡ config i j k reg

-- The registers of function number `n`.
abbrev pub config_of : Config → ℕ → ℕ → ℕ
config_of config n reg = config (n / 256) (n / 8 % 32) (n % 8) reg

abbrev pub is_present : Config → ℕ → Bool
is_present config n = not (u16 (config_of config n 0) == 0xffff)

-- The class without its programming interface.
abbrev pub class_of : Config → ℕ → ℕ
class_of config n = bit_and (config_of config n 2 >>> 8) 0xffff00

-- The functions present among the first `n`, in order.
unfoldable pub found : Config → ℕ → List ℕ
found config zero = []
found config (suc n) =
    let before = found config n in if is_present config n then before ++ (n ∷ []) else before

-- How many of them are of a class.
unfoldable pub class_count : Config → ℕ → ℕ → ℕ
class_count config class zero = 0
class_count config class (suc n) =
    let before = class_count config class n in
    if is_present config n && (class_of config n == class) then before + 1 else before

abbrev pub IsDeviceAt : Config → ℕ → PcieDevice → Type 0
IsDeviceAt config n d =
    (d.bus ≡ n / 256)
    × (d.device ≡ n / 8 % 32)
    × (d.function ≡ n % 8)
    × (d.vendor_id ≡ config_of config n 0 % 2 ^ 16)
    × (d.class_code ≡ config_of config n 2 / 2 ^ 8)
    × (d.header_type ≡ config_of config n 3 / 2 ^ 16 % 2 ^ 8)
    × (d.conf_base1 ≡ 0)
    × (d.conf_base2 ≡ 0)
    × (d.conf_base3 ≡ 0)
    × (d.conf_base4 ≡ 0)
    × (d.conf_base5 ≡ 0)

-- A controllers' array of the given size that counts the functions of its class.
abbrev pub IsTable : Config → ℕ → ℕ → ℕ → Table → Type 0
IsTable config class size n t =
    (length t.entries ≡ size) × (t.count ≡ class_count config class n) × (t.count ≤ size)

pub record AreTables (config : Config) (n : ℕ) (v : Inventory) : Type 0 where
  pub pci : IsTable config class_pci_bridge 16 n v.pci_device
  pub usb : IsTable config class_usb 8 n v.usb_device
  pub sata : IsTable config class_sata_bus 8 n v.sata_device
  pub ide : IsTable config class_ide 4 n v.ide_device
  pub isa : IsTable config class_isa_bridge 4 n v.isa_device
  pub ieee1394 : IsTable config class_ieee1394 4 n v.ieee1394_device
  pub sd : IsTable config class_sd_host 4 n v.sd_device

-- The device table lists the functions found, in their order.
pub record AreListed (config : Config) (n : ℕ) (v : Inventory) : Type 0 where
  pub counted : v.ans ≡ length (found config n)
  pub room : v.ans ≤ 1024
  pub devices : (m : ℕ) → m < v.ans → IsDeviceAt config (get_or (found config n) m 0) (v.device m)

-- The size of the array of a class.
abbrev pub table_size : ℕ → Option ℕ
table_size class =
    if class == class_pci_bridge
    then some 16
    else if class == class_usb
    then some 8
    else if class == class_sata_bus
    then some 8
    else if class == class_ide
    then some 4
    else if class == class_isa_bridge
    then some 4
    else if class == class_ieee1394
    then some 4
    else if class == class_sd_host
    then some 4
    else none

-- More functions of some class than its array holds.
abbrev pub IsOverfull : Config → ℕ → Type 0
IsOverfull config n =
    (class : ℕ) × (size : ℕ) × (table_size class ≡ some size) × (size < class_count config class n)
