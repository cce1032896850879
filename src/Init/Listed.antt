-- ===== src/Init/Listed.antt =====
-- `device_init` on a machine whose controllers fit the tables.
use open_ferain_os.Base.{
  ℕ, ◌≤◌, ◌≡◌, ◌∙◌, arith, refl, inl, inr, Bool-cases, ltb, List, length, get_or, Option, none,
  some,
}
use open_ferain_os.Machine.{Devices}
use open_ferain_os.Console.{System, IsConsole}
use open_ferain_os.Console.Kept.{IsKept}
use open_ferain_os.Pci.{
  Inventory, Table, PcieDevice, Outcome, running, returned, overrun, pci_enumeration, class_sd_host,
}
use open_ferain_os.Pci.Survey.{
  Config, Answers, found, class_count, AreTables, AreListed, IsOverfull,
}
use open_ferain_os.Pci.Probe.{IsSurveyed}
use open_ferain_os.Pci.Enumeration.{IsEmpty, pci_enumeration-IsSurveyed}
use open_ferain_os.Pci.Sound.{IsSound, AreSound, AreFree, IsFree-IsSound}
use open_ferain_os.Pci.Kept.{IsUndisturbed, pci_enumeration-IsUndisturbed}
use open_ferain_os.Controllers.{
  isa_texts, ide_texts, sata_texts, usb_texts, sdhost_texts, ieee1394_texts, Texts,
}
use open_ferain_os.Controllers.Listing.{
  AreDevices, numbers-AreDevices, listing, listings_of_registered,
}
use open_ferain_os.Controllers.Kept.{AreShown, listing-IsKept, pci_sdhost_enu-listing}
use open_ferain_os.Init.{list_devices, device_init}

-- At most 1024 functions, no more controllers of a class than its array holds, and no SD host.
pub record IsFitting (config : Config) : Type 0 where
  pub few : length (found config 65536) ≤ 1024
  pub fits : IsOverfull config 65536 → ⊥
  pub no_sd_host : class_count config class_sd_host 65536 ≡ 0

-- The tables of the functions present: the device table lists them, and each array of controllers
-- has as many entries as there are functions of its class, numbers of devices of that class in rising
-- order, and behind them free entries.
pub record AreFilled (config : Config) (v : Inventory) : Type 0 where
  pub listed : AreListed config 65536 v
  pub tables : AreTables config 65536 v
  pub sound : AreSound v.ans v

-- What the six listings print.
abbrev all_listings : Inventory → System → System
all_listings v s =
    let s = listing isa_texts v.device v.isa_device.entries s in
    let s = listing ide_texts v.device v.ide_device.entries s in
    let s = listing sata_texts v.device v.sata_device.entries s in
    let s = listing usb_texts v.device v.usb_device.entries s in
    let s = listing sdhost_texts v.device v.sd_device.entries s in
    listing ieee1394_texts v.device v.ieee1394_device.entries s

IsSound-AreDevices :
    (class ans : ℕ) (device : ℕ → PcieDevice) (t : Table)
    → IsSound class ans device t
    → ans ≤ 1024
    → AreDevices t.entries
IsSound-AreDevices class ans device t h few = numbers-AreDevices t.entries (λ j below taken.
    elim (Bool-cases (ltb j t.count)) [
      | inl listed ↦ omega (arith, few, h.listed j (ground (arith, listed)))
      | inr free ↦ absurd (taken (h.free j (ground (arith, free)) below))
    ])

AreFree-AreSound : (v : Inventory) → AreFree v → IsEmpty v → AreSound 0 (record v { ans = 0 })
unfolding class_count
AreFree-AreSound v h e = record {
  pci = IsFree-IsSound _ v.device v.pci_device h.pci (omega (arith, e.pci));
  usb = IsFree-IsSound _ v.device v.usb_device h.usb (omega (arith, e.usb));
  sata = IsFree-IsSound _ v.device v.sata_device h.sata (omega (arith, e.sata));
  ide = IsFree-IsSound _ v.device v.ide_device h.ide (omega (arith, e.ide));
  isa = IsFree-IsSound _ v.device v.isa_device h.isa (omega (arith, e.isa));
  ieee1394 = IsFree-IsSound _ v.device v.ieee1394_device h.ieee1394 (omega (arith, e.ieee1394));
  sd = IsFree-IsSound _ v.device v.sd_device h.sd (omega (arith, e.sd));
}

list_devices-all_listings :
    (config : Config) (v : Inventory) (s : System)
    → AreTables config 65536 v
    → AreSound v.ans v
    → v.ans ≤ 1024
    → get_or v.sd_device.entries 0 0 ≡ 0xffffffff
    → list_devices (v, s) ≡ some (v, all_listings v s)
unfolding list_devices
list_devices-all_listings config v s h sound few free =
    let of = λ (t : System).
      listings_of_registered v t h.isa.0 h.ide.0 h.sata.0 h.usb.0 h.ieee1394.0
        (IsSound-AreDevices _ v.ans v.device v.isa_device sound.isa few)
        (IsSound-AreDevices _ v.ans v.device v.ide_device sound.ide few)
        (IsSound-AreDevices _ v.ans v.device v.sata_device sound.sata few)
        (IsSound-AreDevices _ v.ans v.device v.usb_device sound.usb few)
        (IsSound-AreDevices _ v.ans v.device v.ieee1394_device sound.ieee1394 few) in
    let s1 = listing isa_texts v.device v.isa_device.entries s in
    let s2 = listing ide_texts v.device v.ide_device.entries s1 in
    let s3 = listing sata_texts v.device v.sata_device.entries s2 in
    let s4 = listing usb_texts v.device v.usb_device.entries s3 in
    let s5 = listing sdhost_texts v.device v.sd_device.entries s4 in
    rw (of s).0 (
      rw (of s1).1
        (rw (of s2).2 (rw (of s3).3 (rw (pci_sdhost_enu-listing v s4 free) (rw (of s5).4 refl)))))

isa-AreShown : AreShown isa_texts
isa-AreShown = record {
  start = ground arith;
  missing = ground arith;
  item = ground arith;
  located = ground arith;
}

ide-AreShown : AreShown ide_texts
ide-AreShown = record {
  start = ground arith;
  missing = ground arith;
  item = ground arith;
  located = ground arith;
}

sata-AreShown : AreShown sata_texts
sata-AreShown = record {
  start = ground arith;
  missing = ground arith;
  item = ground arith;
  located = ground arith;
}

usb-AreShown : AreShown usb_texts
usb-AreShown = record {
  start = ground arith;
  missing = ground arith;
  item = ground arith;
  located = ground arith;
}

sdhost-AreShown : AreShown sdhost_texts
sdhost-AreShown = record {
  start = ground arith;
  missing = ground arith;
  item = ground arith;
  located = ground arith;
}

ieee1394-AreShown : AreShown ieee1394_texts
ieee1394-AreShown = record {
  start = ground arith;
  missing = ground arith;
  item = ground arith;
  located = ground arith;
}

all_listings-IsKept : (v : Inventory) (s t : System) → IsKept s t → IsKept s (all_listings v t)
all_listings-IsKept v s t k =
    let step =
      λ (texts : Texts) (xs : List ℕ) (shown : AreShown texts) (u : System) (before : IsKept s u).
        listing-IsKept texts v.device xs s u shown before in
    step ieee1394_texts v.ieee1394_device.entries ieee1394-AreShown _ (
      step sdhost_texts v.sd_device.entries sdhost-AreShown _ (
        step usb_texts v.usb_device.entries usb-AreShown _ (
          step sata_texts v.sata_device.entries sata-AreShown _ (
            step ide_texts v.ide_device.entries ide-AreShown _
              (step isa_texts v.isa_device.entries isa-AreShown t k)))))

abbrev after : Outcome (Inventory × System) → Option (Inventory × System)
after o = elim o [ running q ↦ list_devices q | returned q ↦ list_devices q | overrun ↦ none ]

after_lem :
    (config : Config) (s : System) (o : Outcome (Inventory × System))
    → IsFitting config
    → IsSurveyed config 65536 o
    → IsUndisturbed s o
    → (w : Inventory) × (t : System) × (after o ≡ some (w, t)) × AreFilled config w × IsKept s t
after_lem config s (running (w, t)) fit (listed, tables) (kept, (few, sound)) =
    let none_counted : w.sd_device.count ≡ 0 = tables.sd.1 ∙ fit.no_sd_host in
    let first_free : get_or w.sd_device.entries 0 0 ≡ 0xffffffff =
      sound.sd.free 0 (omega (arith, none_counted)) (omega (arith, tables.sd.0)) in
    (
      w,
      all_listings w t,
      list_devices-all_listings config w t tables sound few first_free,
      record { listed = listed; tables = tables; sound = sound },
      all_listings-IsKept w s t kept,
    )
after_lem config s (returned (w, t)) fit (full, more, devices) kept =
    absurd (omega (arith, fit.few))
after_lem config s overrun fit overfull kept = absurd (fit.fits overfull)

-- On such a machine `device_init` stays in its arrays, fills the tables, and changes no system register
-- and no memory but the screen.
pub device_init_lem :
    (config : Config) (hw : Devices) (v : Inventory) (s : System)
    → Answers config hw
    → IsFitting config
    → IsEmpty v
    → AreFree v
    → IsConsole s
    → (w : Inventory) × (t : System) × (device_init hw (v, s) ≡ some (w, t))
      × AreFilled config w
      × IsKept s t
unfolding device_init
device_init_lem config hw v s answers fit empty free c =
    after_lem config s (pci_enumeration hw (v, s)) fit
      (pci_enumeration-IsSurveyed config hw v s answers empty)
      (pci_enumeration-IsUndisturbed hw v s c (AreFree-AreSound v free empty))
