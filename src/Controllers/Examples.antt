-- ===== src/Controllers/Examples.antt =====
-- Listings of concrete tables.
use open_ferain_os.Base.{ℕ, ◌≡◌, codes, refl, arith, [], ◌∷◌, replicate, some, none}
use open_ferain_os.Samples.{system}
use open_ferain_os.Digits.{dec_digit}
use open_ferain_os.Pci.{Inventory, Table, PcieDevice}
use open_ferain_os.Controllers.{
  pci_isa_enu, pci_ide_enu, pci_sata_enu, pci_usb_enu, pci_sdhost_enu, pci_ieee1394_enu, isa_texts,
  ide_texts, sata_texts, usb_texts, ieee1394_texts,
}
use open_ferain_os.Controllers.Listing.{
  listing, report, part, line, listings_of_registered, pci_sdhost_enu_overruns,
}

abbrev free : ℕ → Table
free n = record { entries = replicate n 0xffffffff; count = 0 }

abbrev at : ℕ → PcieDevice
at n = record {
  bus = 0;
  device = n;
  function = 0;
  vendor_id = 0x8086;
  class_code = 0;
  header_type = 0;
  conf_base0 = 0;
  conf_base1 = 0;
  conf_base2 = 0;
  conf_base3 = 0;
  conf_base4 = 0;
  conf_base5 = 0;
}

abbrev full : Inventory
full = record {
  ans = 5;
  device = at;
  pci_device = free 16;
  usb_device = free 8;
  sata_device = free 8;
  ide_device = record { entries = 4 ∷ replicate 3 0xffffffff; count = 1 };
  isa_device = free 4;
  ieee1394_device = free 4;
  sd_device = record { entries = 0 ∷ 1 ∷ 2 ∷ 3 ∷ []; count = 4 };
  continue_flag = 1;
  pcie_conf_mem_base = 0x00050000;
  pcie_conf_io_base = 0x1000;
}

listings_of_registered_example :
    (pci_isa_enu full system ≡ some (listing isa_texts at full.isa_device.entries system))
    × (pci_ide_enu full system ≡ some (listing ide_texts at full.ide_device.entries system))
    × (pci_sata_enu full system ≡ some (listing sata_texts at full.sata_device.entries system))
    × (pci_usb_enu full system ≡ some (listing usb_texts at full.usb_device.entries system))
    × (pci_ieee1394_enu full system
        ≡ some (listing ieee1394_texts at full.ieee1394_device.entries system))
listings_of_registered_example =
    listings_of_registered full system refl refl refl refl refl (λ used. absurd (used refl))
      (λ used. (omega arith, λ used. absurd (used refl))) (λ used. absurd (used refl))
      (λ used. absurd (used refl)) (λ used. absurd (used refl))

pci_sdhost_enu_overruns_example : pci_sdhost_enu full system ≡ none
pci_sdhost_enu_overruns_example =
    pci_sdhost_enu_overruns full system 0 1 2 3 refl (omega arith) (omega arith) (omega arith)
      (omega arith)

-- The report of the one IDE controller.
ide_report :
    report ide_texts at full.ide_device.entries
    ≡ line (codes "[IDE] IDE starts enumerating devices")
      ∷ part (codes "[IDE] Enumerating IDE Contraller ")
      ∷ line (codes "0")
      ∷ part (codes "[IDE] IDE Contraller Located in ")
      ∷ part (codes " Bus : ")
      ∷ part (codes "0")
      ∷ part (codes " Device : ")
      ∷ part (codes "4")
      ∷ part (codes " Function : ")
      ∷ line (codes "0")
      ∷ []
unfolding dec_digit
ide_report = refl
