-- ===== src/Controllers.antt =====
-- Include/device/ISA.h, IDE.h, SATA.h, USB.h, SDHOST.h and IEEE1394.h: the listings of the
-- controllers that the enumeration registered. The six functions differ in their texts, their array
-- and their number of rounds.
pub mod Listing
pub mod Kept
mod Examples
use open_ferain_os.Base.{
  ℕ, zero, suc, ◌+◌, Bool, true, false, List, codes, length, get_or, ◌==◌, ltb, if◌then◌else◌,
  Option, none, some,
}
use open_ferain_os.Console.{System, printf, println}
use open_ferain_os.Digits.{dec_digit}
use open_ferain_os.Sha.{c_string}
use open_ferain_os.Pci.{PcieDevice, Inventory, device_at}

-- The texts of one of the six functions.
pub record Texts : Type 0 where
  pub start : List ℕ
  pub missing : List ℕ
  pub item : List ℕ
  pub located : List ℕ

-- What one round prints, for the controller with number `i`.
unfoldable pub print_controller : Texts → ℕ → PcieDevice → System → System
print_controller texts i d s =
    let s = println (c_string (dec_digit i)) (printf texts.item s) in
    let s = printf texts.located s in
    let s = printf (c_string (dec_digit d.bus)) (printf (codes " Bus : ") s) in
    let s = printf (c_string (dec_digit d.device)) (printf (codes " Device : ") s) in
    println (c_string (dec_digit d.function)) (printf (codes " Function : ") s)

-- The loop, with the rounds left; none where it reads behind the array of the controllers or the one
-- of the devices.
unfoldable pub list_rounds :
    Texts → (ℕ → Option PcieDevice) → List ℕ → ℕ → ℕ → System → Option System
list_rounds texts device entries zero i s = some s
list_rounds texts device entries (suc n) i s =
    let entry = get_or entries i 0 in
    let round = λ (d : PcieDevice).
      list_rounds texts device entries n (i + 1) (print_controller texts i d s) in
    if ltb i (length entries)
    then if entry == 0xffffffff
      then some s
      else elim (device entry) [ none ↦ none | some d ↦ round d ]
    else none

unfoldable pub list_controllers :
    Texts → ℕ → (ℕ → Option PcieDevice) → List ℕ → System → Option System
unfolding list_rounds
list_controllers texts rounds device entries s =
    let s = println texts.start s in
    if get_or entries 0 0 == 0xffffffff
    then some (println texts.missing s)
    else list_rounds texts device entries rounds 0 s

abbrev pub isa_texts : Texts
isa_texts = record {
  start = codes "[ISA] ISA starts enumerating devices";
  missing = codes "[ISA] Not Found Any ISA Bridge!!!";
  item = codes "[ISA] Enumerating ISA Bridge ";
  located = codes "[ISA] ISA Bridge Located in ";
}

abbrev pub ide_texts : Texts
ide_texts = record {
  start = codes "[IDE] IDE starts enumerating devices";
  missing = codes "[IDE] Not Found Any IDE Controller!!!";
  item = codes "[IDE] Enumerating IDE Contraller ";
  located = codes "[IDE] IDE Contraller Located in ";
}

abbrev pub sata_texts : Texts
sata_texts = record {
  start = codes "[SATA] SATA starts enumerating devices";
  missing = codes "[SATA] Not Found Any SATA Bus!!!";
  item = codes "[SATA] Enumerating SATA Bus ";
  located = codes "[SATA] SATA Bus Located in ";
}

abbrev pub usb_texts : Texts
usb_texts = record {
  start = codes "[USB] USB starts enumerating devices";
  missing = codes "[USB] Not Found Any USB Control!!!";
  item = codes "[USB] Enumerating USB Contraller ";
  located = codes "[USB] USB Contraller Located in ";
}

abbrev pub sdhost_texts : Texts
sdhost_texts = record {
  start = codes "[SDHOST] SDHOST starts enumerating devices";
  missing = codes "[SDHOST] Not Found Any SDHOST Controller!!!";
  item = codes "[SDHOST] Enumerating SDHOST Contraller ";
  located = codes "[SDHOST] SDHOST Contraller Located in ";
}

abbrev pub ieee1394_texts : Texts
ieee1394_texts = record {
  start = codes "[IEEE1394] IEEE1394 starts enumerating devices";
  missing = codes "[IEEE1394] Not Found Any IEEE1394 Controller!!!";
  item = codes "[IEEE1394] Enumerating IEEE1394 Contraller ";
  located = codes "[IEEE1394] IEEE1394 Contraller Located in ";
}

unfoldable pub pci_isa_enu : Inventory → System → Option System
pci_isa_enu v = list_controllers isa_texts 4 (device_at v) v.isa_device.entries

unfoldable pub pci_ide_enu : Inventory → System → Option System
pci_ide_enu v = list_controllers ide_texts 4 (device_at v) v.ide_device.entries

unfoldable pub pci_sata_enu : Inventory → System → Option System
pci_sata_enu v = list_controllers sata_texts 8 (device_at v) v.sata_device.entries

unfoldable pub pci_usb_enu : Inventory → System → Option System
pci_usb_enu v = list_controllers usb_texts 8 (device_at v) v.usb_device.entries

unfoldable pub pci_sdhost_enu : Inventory → System → Option System
pci_sdhost_enu v = list_controllers sdhost_texts 8 (device_at v) v.sd_device.entries

unfoldable pub pci_ieee1394_enu : Inventory → System → Option System
pci_ieee1394_enu v = list_controllers ieee1394_texts 4 (device_at v) v.ieee1394_device.entries
