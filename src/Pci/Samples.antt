-- ===== src/Pci/Samples.antt =====
-- Device tables before an enumeration.
use open_ferain_os.Base.{ℕ, zero, suc, ◌<◌, ◌≡◌, refl, arith, replicate, length, get_or}
use open_ferain_os.Pci.{Inventory, Table, PcieDevice}
use open_ferain_os.Pci.Survey.{class_count}
use open_ferain_os.Pci.Sound.{AreFree}
use open_ferain_os.Pci.Enumeration.{IsEmpty}

abbrev pub table : ℕ → Table
table n = record { entries = replicate n 0xffffffff; count = 0 }

abbrev pub no_device : PcieDevice
no_device = record {
  bus = 0;
  device = 0;
  function = 0;
  vendor_id = 0;
  class_code = 0;
  header_type = 0;
  conf_base0 = 0;
  conf_base1 = 0;
  conf_base2 = 0;
  conf_base3 = 0;
  conf_base4 = 0;
  conf_base5 = 0;
}

abbrev pub empty : Inventory
empty = record {
  ans = 0;
  device = λ n. no_device;
  pci_device = table 16;
  usb_device = table 8;
  sata_device = table 8;
  ide_device = table 4;
  isa_device = table 4;
  ieee1394_device = table 4;
  sd_device = table 4;
  continue_flag = 0;
  pcie_conf_mem_base = 0x00050000;
  pcie_conf_io_base = 0x1000;
}

pub empty-IsEmpty : IsEmpty empty
unfolding class_count
empty-IsEmpty = record {
  pci = (refl, refl, omega arith);
  usb = (refl, refl, omega arith);
  sata = (refl, refl, omega arith);
  ide = (refl, refl, omega arith);
  isa = (refl, refl, omega arith);
  ieee1394 = (refl, refl, omega arith);
  sd = (refl, refl, omega arith);
}

table-IsFree : (n j : ℕ) → j < length (table n).entries → get_or (table n).entries j 0 ≡ 0xffffffff
table-IsFree zero j below = absurd (omega arith)
table-IsFree (suc n) zero below = refl
table-IsFree (suc n) (suc j) below = table-IsFree n j (omega arith)

pub empty-AreFree : AreFree empty
empty-AreFree = record {
  pci = table-IsFree 16;
  usb = table-IsFree 8;
  sata = table-IsFree 8;
  ide = table-IsFree 4;
  isa = table-IsFree 4;
  ieee1394 = table-IsFree 4;
  sd = table-IsFree 4;
}
