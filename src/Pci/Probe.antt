-- ===== src/Pci/Probe.antt =====
-- One function of the configuration space: what `probe` adds to the inventory.
use open_ferain_os.Base.{
  ==_cases, ℕ, suc, ◌+◌, ◌/◌, ◌%◌, ◌≤◌, ◌<◌, ◌≡◌, inl, inr, refl, ap, ◌∙◌, true, false, Bool-cases,
  [], ◌∷◌, ◌++◌, length, get_or, get_or-append, ◌==◌, leb, leb→le, u8, u16, u32, ◌>>>◌, arith,
  length-append,
}
use open_ferain_os.Machine.{Devices, outpd, inpd}
use open_ferain_os.Console.{System}
use open_ferain_os.Pci.{
  PcieDevice, Table, Inventory, Outcome, running, returned, overrun, read_config, probe, conf_bars,
  conf_bar, put_device, class_usb, class_ide, class_sata_bus, class_isa_bridge, class_pci_bridge,
  class_ieee1394, class_sd_host,
}
use open_ferain_os.Pci.Survey.{
  Config, Answers, config_of, found, is_present, class_count, IsDeviceAt, IsTable, AreTables,
  AreListed, IsOverfull,
}
use open_ferain_os.Pci.Tables.{register_class-Registered}

-- What an enumeration has done after the first `n` functions.
abbrev pub IsSurveyed : Config → ℕ → Outcome (Inventory × System) → Type 0
IsSurveyed config n (running (v, s)) = AreListed config n v × AreTables config n v
IsSurveyed config n (returned (v, s)) =
    (v.ans ≡ 1024)
    × (1024 < length (found config n))
    × ((m : ℕ) → m < 1024 → IsDeviceAt config (get_or (found config n) m 0) (v.device m))
IsSurveyed config n overrun = IsOverfull config n

read_config-config_of :
    (config : Config) (hw : Devices) (n reg : ℕ) (s : System)
    → Answers config hw
    → n < 65536
    → reg < 64
    → (read_config hw (n / 256) (n / 8 % 32) (n % 8) reg s).0 ≡ config_of config n reg
unfolding read_config outpd inpd
read_config-config_of config hw n reg s answers h few =
    let ei : u8 (n / 256) ≡ n / 256 = omega arith in
    let ej : u8 (n / 8 % 32) ≡ n / 8 % 32 = omega arith in
    let ek : u8 (n % 8) ≡ n % 8 = omega arith in
    rw ei (
      rw ej (
        rw ek (
          answers (n / 256) (n / 8 % 32) (n % 8) reg s.machine.traffic (omega arith) (omega arith)
            (omega arith) few)))

pub found-present :
    (config : Config) (n : ℕ)
    → is_present config n ≡ true
    → found config (suc n) ≡ found config n ++ (n ∷ [])
unfolding found
found-present config n present = rw present refl

pub found-absent :
    (config : Config) (n : ℕ) → is_present config n ≡ false → found config (suc n) ≡ found config n
unfolding found
found-absent config n absent = rw absent refl

IsTable-absent :
    (config : Config) (class size n : ℕ) (t : Table)
    → is_present config n ≡ false
    → IsTable config class size n t
    → IsTable config class size (suc n) t
unfolding class_count
IsTable-absent config class size n t absent h = ground arith

module _ (config : Config) (n : ℕ) (v : Inventory) where
  AreTables-absent : is_present config n ≡ false → AreTables config n v → AreTables config (suc n) v
  AreTables-absent absent h = record {
    pci = IsTable-absent config class_pci_bridge 16 n v.pci_device absent h.pci;
    usb = IsTable-absent config class_usb 8 n v.usb_device absent h.usb;
    sata = IsTable-absent config class_sata_bus 8 n v.sata_device absent h.sata;
    ide = IsTable-absent config class_ide 4 n v.ide_device absent h.ide;
    isa = IsTable-absent config class_isa_bridge 4 n v.isa_device absent h.isa;
    ieee1394 = IsTable-absent config class_ieee1394 4 n v.ieee1394_device absent h.ieee1394;
    sd = IsTable-absent config class_sd_host 4 n v.sd_device absent h.sd;
  }

  AreListed-absent : is_present config n ≡ false → AreListed config n v → AreListed config (suc n) v
  AreListed-absent absent h = rw_listed (found-absent config n absent) h
    where
      rw_listed :
          found config (suc n) ≡ found config n → AreListed config n v → AreListed config (suc n) v
      rw_listed e l = record {
        counted = rw e l.counted;
        room = l.room;
        devices = λ m below. rw e (l.devices m below);
      }

-- The device table with one more entry.
AreListed-present :
    (config : Config) (n : ℕ) (v v' : Inventory) (d : PcieDevice)
    → is_present config n ≡ true
    → AreListed config n v
    → v.ans < 1024
    → v'.ans ≡ v.ans + 1
    → v'.device ≡ put_device v.ans d v.device
    → IsDeviceAt config n d
    → AreListed config (suc n) v'
AreListed-present config n v v' d present h room more stored at =
    let e = found-present config n present in
    record {
      counted = rw e (omega (arith, more, h.counted, length-append (found config n) (n ∷ [])));
      room = omega arith;
      devices = λ m below. rw e (elim (==_cases m v.ans) [
        | inl last ↦
            let place : get_or (found config n ++ (n ∷ [])) m 0 ≡ n =
              ground (arith, get_or-append (found config n) n m, h.counted) in
            let value : v'.device m ≡ d = ap (λ (f : ℕ → PcieDevice). f m) stored ∙ ground arith in
            rw place (rw value at)
        | inr before ↦
            let place : get_or (found config n ++ (n ∷ [])) m 0 ≡ get_or (found config n) m 0 =
              ground (arith, get_or-append (found config n) n m, h.counted) in
            let value : v'.device m ≡ v.device m =
              ap (λ (f : ℕ → PcieDevice). f m) stored ∙ ground arith in
            rw place (rw value (h.devices m (omega arith)))
      ]);
    }

-- The entry of function `n`, over what the table's entry held.
abbrev new_device : Config → ℕ → PcieDevice → PcieDevice
new_device config n d = record d {
  bus = u8 (n / 256);
  device = u8 (n / 8 % 32);
  function = u8 (n % 8);
  vendor_id = u16 (config_of config n 0);
  class_code = config_of config n 2 >>> 8;
  header_type = u8 (config_of config n 3 >>> 16);
  conf_base1 = 0;
  conf_base2 = 0;
  conf_base3 = 0;
  conf_base4 = 0;
  conf_base5 = 0;
}

new_device-IsDeviceAt :
    (config : Config) (n : ℕ) (d : PcieDevice)
    → n < 65536
    → IsDeviceAt config n (new_device config n d)
new_device-IsDeviceAt config n d h =
    (omega arith, omega arith, omega arith, refl, refl, refl, refl, refl, refl, refl, refl)

returned_full :
    (config : Config) (n : ℕ) (v : Inventory)
    → is_present config n ≡ true
    → AreListed config n v
    → leb 1024 v.ans ≡ true
    → (v.ans ≡ 1024)
      × (1024 < length (found config (suc n)))
      × ((m : ℕ) → m < 1024 → IsDeviceAt config (get_or (found config (suc n)) m 0) (v.device m))
returned_full config n v present h full =
    let most : 1024 ≤ v.ans = leb→le 1024 v.ans full in
    rw (found-present config n present) (
      omega (arith, h.room),
      omega (arith, h.counted, length-append (found config n) (n ∷ [])),
      λ m below.
          let place : get_or (found config n ++ (n ∷ [])) m 0 ≡ get_or (found config n) m 0 =
            ground (arith, get_or-append (found config n) n m, h.counted) in
          rw place (h.devices m (omega arith)),
    )

-- One probe in number order.
pub probe-IsSurveyed :
    (config : Config) (hw : Devices) (n : ℕ) (v : Inventory) (s : System)
    → Answers config hw
    → n < 65536
    → AreListed config n v
    → AreTables config n v
    → IsSurveyed config (suc n) (probe hw (n / 256) (n / 8 % 32) (n % 8) (v, s))
unfolding probe conf_bars conf_bar
probe-IsSurveyed config hw n v s answers h listed tables =
    let i = n / 256 in
    let j = n / 8 % 32 in
    let k = n % 8 in
    let s1 = (read_config hw i j k 0 s).1 in
    let s2 = (read_config hw i j k 2 s1).1 in
    let e0 = read_config-config_of config hw n 0 s answers h (omega arith) in
    let e2 = read_config-config_of config hw n 2 s1 answers h (omega arith) in
    let e3 = read_config-config_of config hw n 3 s2 answers h (omega arith) in
    rw e0 (elim (Bool-cases (u16 (config_of config n 0) == 0xffff)) [
      | inl silent ↦
          let absent : is_present config n ≡ false = rw silent refl in
          rw silent
            (AreListed-absent config n v absent listed, AreTables-absent config n v absent tables)
      | inr answered ↦
          let present : is_present config n ≡ true = rw answered refl in
          rw answered (elim (Bool-cases (leb 1024 v.ans)) [
            | inl full ↦ rw full (returned_full config n v present listed full)
            | inr room ↦ rw room (
                rw e2 (
                  rw e3
                    (elim (register_class-Registered config n
                      (record v {
                        device = put_device v.ans (new_device config n (v.device v.ans)) v.device;
                        continue_flag = 1;
                      })
                      (record {
                        pci = tables.pci;
                        usb = tables.usb;
                        sata = tables.sata;
                        ide = tables.ide;
                        isa = tables.isa;
                        ieee1394 = tables.ieee1394;
                        sd = tables.sd;
                      })
                      present) [
                        | inl (v', ok, tables', ans, device) ↦ rw ok (
                          AreListed-present config n v (record v' { ans = u32 (v'.ans + 1) })
                              (new_device config n (v.device v.ans)) present listed (ground arith)
                              (ground arith) device
                              (new_device-IsDeviceAt config n (v.device v.ans) h),
                          record {
                            pci = tables'.pci;
                            usb = tables'.usb;
                            sata = tables'.sata;
                            ide = tables'.ide;
                            isa = tables'.isa;
                            ieee1394 = tables'.ieee1394;
                            sd = tables'.sd;
                          },
                        )
                        | inr (bad, over) ↦ rw bad over
                      ])))
          ])
    ])
