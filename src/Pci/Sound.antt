-- ===== src/Pci/Sound.antt =====
-- What the arrays of controllers of Include/device/PCI.h hold: numbers of devices of their class, in
-- rising order, and behind them free entries.
pub mod Register
use open_ferain_os.Base.{ℕ, ◌+◌, ◌≤◌, ◌<◌, ◌≡◌, arith, length, get_or, bit_and}
use open_ferain_os.Pci.{
  Inventory, Table, PcieDevice, put_device, class_usb, class_ide, class_sata_bus, class_isa_bridge,
  class_pci_bridge, class_ieee1394, class_sd_host,
}

-- Class and subclass of a device.
abbrev pub kind_of : PcieDevice → ℕ
kind_of d = bit_and d.class_code 0xffff00

-- An array of controllers of a class among the first `ans` devices.
pub record IsSound (class ans : ℕ) (device : ℕ → PcieDevice) (t : Table) : Type 0 where
  pub listed : (j : ℕ) → j < t.count → get_or t.entries j 0 < ans
  pub kind : (j : ℕ) → j < t.count → kind_of (device (get_or t.entries j 0)) ≡ class
  pub rising : (j k : ℕ) → j < k → k < t.count → get_or t.entries j 0 < get_or t.entries k 0
  pub free : (j : ℕ) → t.count ≤ j → j < length t.entries → get_or t.entries j 0 ≡ 0xffffffff

pub record AreSound (ans : ℕ) (v : Inventory) : Type 0 where
  pub pci : IsSound class_pci_bridge ans v.device v.pci_device
  pub usb : IsSound class_usb ans v.device v.usb_device
  pub sata : IsSound class_sata_bus ans v.device v.sata_device
  pub ide : IsSound class_ide ans v.device v.ide_device
  pub isa : IsSound class_isa_bridge ans v.device v.isa_device
  pub ieee1394 : IsSound class_ieee1394 ans v.device v.ieee1394_device
  pub sd : IsSound class_sd_host ans v.device v.sd_device

-- Only free entries.
abbrev pub IsFree : Table → Type 0
IsFree t = (j : ℕ) → j < length t.entries → get_or t.entries j 0 ≡ 0xffffffff

pub record AreFree (v : Inventory) : Type 0 where
  pub pci : IsFree v.pci_device
  pub usb : IsFree v.usb_device
  pub sata : IsFree v.sata_device
  pub ide : IsFree v.ide_device
  pub isa : IsFree v.isa_device
  pub ieee1394 : IsFree v.ieee1394_device
  pub sd : IsFree v.sd_device

pub IsFree-IsSound :
    (class : ℕ) (device : ℕ → PcieDevice) (t : Table)
    → IsFree t
    → t.count ≡ 0
    → IsSound class 0 device t
IsFree-IsSound class device t h e = record {
  listed = λ j below. absurd (omega (arith, e));
  kind = λ j below. absurd (omega (arith, e));
  rising = λ j k order below. absurd (omega (arith, e));
  free = λ j above below. h j below;
}

-- A device behind the others takes no entry's place.
IsSound-put_device :
    (class ans next : ℕ) (d : PcieDevice) (device : ℕ → PcieDevice) (t : Table)
    → IsSound class ans device t
    → ans ≤ next
    → IsSound class next (put_device ans d device) t
IsSound-put_device class ans next d device t h later = record {
  listed = λ j below. omega (arith, h.listed j below);
  kind = λ j below. ground (arith, h.listed j below, h.kind j below);
  rising = h.rising;
  free = h.free;
}

pub AreSound-put_device :
    (next : ℕ) (d : PcieDevice) (v : Inventory)
    → AreSound v.ans v
    → v.ans ≤ next
    → AreSound next (record v { continue_flag = 1; device = put_device v.ans d v.device })
AreSound-put_device next d v h later = record {
  pci = IsSound-put_device class_pci_bridge v.ans next d v.device v.pci_device h.pci later;
  usb = IsSound-put_device class_usb v.ans next d v.device v.usb_device h.usb later;
  sata = IsSound-put_device class_sata_bus v.ans next d v.device v.sata_device h.sata later;
  ide = IsSound-put_device class_ide v.ans next d v.device v.ide_device h.ide later;
  isa = IsSound-put_device class_isa_bridge v.ans next d v.device v.isa_device h.isa later;
  ieee1394 =
      IsSound-put_device class_ieee1394 v.ans next d v.device v.ieee1394_device h.ieee1394 later;
  sd = IsSound-put_device class_sd_host v.ans next d v.device v.sd_device h.sd later;
}

pub AreSound-ans :
    (ans : ℕ) (v : Inventory) → AreSound ans v → AreSound ans (record v { ans = ans })
AreSound-ans ans v h = record {
  pci = h.pci;
  usb = h.usb;
  sata = h.sata;
  ide = h.ide;
  isa = h.isa;
  ieee1394 = h.ieee1394;
  sd = h.sd;
}

-- The seven arrays together.
pub seven-AreSound :
    (ans : ℕ) (v : Inventory)
    → IsSound class_pci_bridge ans v.device v.pci_device
    → IsSound class_usb ans v.device v.usb_device
    → IsSound class_sata_bus ans v.device v.sata_device
    → IsSound class_ide ans v.device v.ide_device
    → IsSound class_isa_bridge ans v.device v.isa_device
    → IsSound class_ieee1394 ans v.device v.ieee1394_device
    → IsSound class_sd_host ans v.device v.sd_device
    → AreSound ans v
seven-AreSound ans v pci usb sata ide isa ieee1394 sd = record {
  pci = pci;
  usb = usb;
  sata = sata;
  ide = ide;
  isa = isa;
  ieee1394 = ieee1394;
  sd = sd;
}
