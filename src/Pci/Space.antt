-- ===== src/Pci/Space.antt =====
-- Include/device/PCI.h: the tables, and the access to the configuration space.
use open_ferain_os.Base.{
  ℕ, List, bit_and, bit_or, u8, ◌<<<◌, ltb, if◌then◌else◌, Option, none, some,
}
use open_ferain_os.Machine.{Devices, outpd, inpd}
use open_ferain_os.Console.{System}

abbrev pub pcie_device_max : ℕ
pcie_device_max = 1024

abbrev pub class_usb : ℕ
class_usb = 0x0c0300

abbrev pub class_ide : ℕ
class_ide = 0x010100

abbrev pub class_sata_bus : ℕ
class_sata_bus = 0x010600

abbrev pub class_isa_bridge : ℕ
class_isa_bridge = 0x060100

abbrev pub class_pci_bridge : ℕ
class_pci_bridge = 0x060400

abbrev pub class_ieee1394 : ℕ
class_ieee1394 = 0x0c0000

abbrev pub class_sd_host : ℕ
class_sd_host = 0x080500

pub record PcieDevice : Type 0 where
  pub bus : ℕ
  pub device : ℕ
  pub function : ℕ
  pub vendor_id : ℕ
  pub class_code : ℕ
  pub header_type : ℕ
  pub conf_base0 : ℕ
  pub conf_base1 : ℕ
  pub conf_base2 : ℕ
  pub conf_base3 : ℕ
  pub conf_base4 : ℕ
  pub conf_base5 : ℕ

-- One of the arrays of controllers with its entry of `device_count`.
pub record Table : Type 0 where
  pub entries : List ℕ
  pub count : ℕ

-- The tables and `ans`, the number of devices so far. The array of devices has `pcie_device_max`
-- entries: the enumeration stores below that bound, and every read by number goes through `device_at`.
pub record Inventory : Type 0 where
  pub ans : ℕ
  pub device : ℕ → PcieDevice
  pub pci_device : Table
  pub usb_device : Table
  pub sata_device : Table
  pub ide_device : Table
  pub isa_device : Table
  pub ieee1394_device : Table
  pub sd_device : Table
  pub continue_flag : ℕ
  pub pcie_conf_mem_base : ℕ
  pub pcie_conf_io_base : ℕ

-- The entry of `device` with a number; none where the read leaves the array.
abbrev pub device_at : Inventory → ℕ → Option PcieDevice
device_at v n = if ltb n pcie_device_max then some (v.device n) else none

unfoldable pub convert_to_32data : ℕ → ℕ → ℕ → ℕ → ℕ
convert_to_32data bus dev function reg =
    bit_or
      (bit_or (bit_or (bit_or (1 <<< 31) (bus <<< 16)) (bit_and dev 0x1f <<< 11))
        (bit_and function 0x07 <<< 8))
      (bit_and reg 0x3f <<< 2)

-- One access to the configuration space: the address to 0xCF8, the value from 0xCFC.
unfoldable pub read_config : Devices → ℕ → ℕ → ℕ → ℕ → System → ℕ × System
unfolding convert_to_32data outpd inpd
read_config hw i j k reg s =
    let (value, machine) =
      inpd hw 0xcfc (outpd 0xcf8 (convert_to_32data (u8 i) (u8 j) (u8 k) reg) s.machine) in
    (value, record s { machine = machine })

-- One store to it.
unfoldable pub write_config : ℕ → ℕ → ℕ → ℕ → ℕ → System → System
unfolding convert_to_32data outpd
write_config i j k reg value s = record s {
  machine = outpd 0xcfc value (outpd 0xcf8 (convert_to_32data (u8 i) (u8 j) (u8 k) reg) s.machine);
}
