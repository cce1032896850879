-- ===== src/Pci/Tables.antt =====
-- The registration of controllers by class.
use open_ferain_os.Base.{
  ==_cases, ℕ, suc, ◌+◌, ◌≤◌, ◌<◌, ◌≡◌, ◌≢◌, ◌⊎◌, inl, inr, refl, ap, ◌∙◌, true, Bool-cases, ◌==◌,
  none, some, arith, length-set, set, u8,
}
use open_ferain_os.Pci.{
  Table, Inventory, register, register_class, with_table, class_usb, class_ide, class_sata_bus,
  class_isa_bridge, class_pci_bridge, class_ieee1394, class_sd_host,
}
use open_ferain_os.Pci.Survey.{
  Config, is_present, class_of, class_count, IsTable, AreTables, IsOverfull,
}

-- A table of another class is as it was.
IsTable-other :
    (config : Config) (class size n : ℕ) (t : Table)
    → class_of config n ≢ class
    → IsTable config class size n t
    → IsTable config class size (suc n) t
unfolding class_count
IsTable-other config class size n t ne h = ground arith

-- What registering gives: the class's table with one more entry, or a store outside a full one.
register-IsTable :
    (config : Config) (class size ans n : ℕ) (t : Table)
    → size ≤ 16
    → is_present config n ≡ true
    → class_of config n ≡ class
    → IsTable config class size n t
    → ((t' : Table) × (register size ans t ≡ some t') × IsTable config class size (suc n) t')
      ⊎ ((register size ans t ≡ none) × (size < class_count config class (suc n)))
unfolding register class_count
register-IsTable config class size ans n t small present e (len, counted, fits) =
    elim (Bool-cases (t.count == size)) [
      | inl full ↦ inr (ground arith, ground arith)
      | inr more ↦ inl (
        record { entries = set t.entries t.count ans; count = u8 (t.count + 1) },
        ground arith,
        (length-set t.entries t.count ans ∙ len, ground arith, ground arith),
      )
    ]

-- What `register_class` makes of function `n`.
abbrev pub Registered : Config → ℕ → Inventory → Type 0
Registered config n v =
    ((v' : Inventory) × (register_class (class_of config n) v ≡ some v')
      × AreTables config (suc n) v'
      × (v'.ans ≡ v.ans)
      × (v'.device ≡ v.device))
    ⊎ ((register_class (class_of config n) v ≡ none) × IsOverfull config (suc n))

-- A function of none of the seven classes leaves every table alone; so does every class the six others.
module _ (config : Config) (n : ℕ) (v : Inventory) (h : AreTables config n v) where
  kept :
      (class size : ℕ) (t : Table)
      → class_of config n ≢ class
      → IsTable config class size n t
      → IsTable config class size (suc n) t
  kept class size t = IsTable-other config class size n t

  registers_pci :
      is_present config n ≡ true → class_of config n ≡ class_pci_bridge → Registered config n v
  unfolding register_class
  registers_pci present e =
      elim (register-IsTable config class_pci_bridge 16 v.ans n v.pci_device (omega arith) present e
        h.pci) [
          | inl (t, ok, new) ↦ inl (
            record v { pci_device = t },
            rw e (ap (with_table (λ t. record v { pci_device = t })) ok),
            record {
              pci = new;
              usb = kept class_usb 8 v.usb_device (λ d. absurd (omega arith)) h.usb;
              sata = kept class_sata_bus 8 v.sata_device (λ d. absurd (omega arith)) h.sata;
              ide = kept class_ide 4 v.ide_device (λ d. absurd (omega arith)) h.ide;
              isa = kept class_isa_bridge 4 v.isa_device (λ d. absurd (omega arith)) h.isa;
              ieee1394 =
                  kept class_ieee1394 4 v.ieee1394_device (λ d. absurd (omega arith)) h.ieee1394;
              sd = kept class_sd_host 4 v.sd_device (λ d. absurd (omega arith)) h.sd;
            },
            refl,
            refl,
          )
          | inr (bad, over) ↦ inr (
            rw e (ap (with_table (λ t. record v { pci_device = t })) bad),
            (class_pci_bridge, 16, refl, over),
          )
        ]

  registers_usb : is_present config n ≡ true → class_of config n ≡ class_usb → Registered config n v
  unfolding register_class
  registers_usb present e =
      elim (register-IsTable config class_usb 8 v.ans n v.usb_device (omega arith) present e
        h.usb) [
          | inl (t, ok, new) ↦ inl (
            record v { usb_device = t },
            rw e (ap (with_table (λ t. record v { usb_device = t })) ok),
            record {
              pci = kept class_pci_bridge 16 v.pci_device (λ d. absurd (omega arith)) h.pci;
              usb = new;
              sata = kept class_sata_bus 8 v.sata_device (λ d. absurd (omega arith)) h.sata;
              ide = kept class_ide 4 v.ide_device (λ d. absurd (omega arith)) h.ide;
              isa = kept class_isa_bridge 4 v.isa_device (λ d. absurd (omega arith)) h.isa;
              ieee1394 =
                  kept class_ieee1394 4 v.ieee1394_device (λ d. absurd (omega arith)) h.ieee1394;
              sd = kept class_sd_host 4 v.sd_device (λ d. absurd (omega arith)) h.sd;
            },
            refl,
            refl,
          )
          | inr (bad, over) ↦ inr (
            rw e (ap (with_table (λ t. record v { usb_device = t })) bad),
            (class_usb, 8, refl, over),
          )
        ]

  registers_sata :
      is_present config n ≡ true → class_of config n ≡ class_sata_bus → Registered config n v
  unfolding register_class
  registers_sata present e =
      elim (register-IsTable config class_sata_bus 8 v.ans n v.sata_device (omega arith) present e
        h.sata) [
          | inl (t, ok, new) ↦ inl (
            record v { sata_device = t },
            rw e (ap (with_table (λ t. record v { sata_device = t })) ok),
            record {
              pci = kept class_pci_bridge 16 v.pci_device (λ d. absurd (omega arith)) h.pci;
              usb = kept class_usb 8 v.usb_device (λ d. absurd (omega arith)) h.usb;
              sata = new;
              ide = kept class_ide 4 v.ide_device (λ d. absurd (omega arith)) h.ide;
              isa = kept class_isa_bridge 4 v.isa_device (λ d. absurd (omega arith)) h.isa;
              ieee1394 =
                  kept class_ieee1394 4 v.ieee1394_device (λ d. absurd (omega arith)) h.ieee1394;
              sd = kept class_sd_host 4 v.sd_device (λ d. absurd (omega arith)) h.sd;
            },
            refl,
            refl,
          )
          | inr (bad, over) ↦ inr (
            rw e (ap (with_table (λ t. record v { sata_device = t })) bad),
            (class_sata_bus, 8, refl, over),
          )
        ]

  registers_ide : is_present config n ≡ true → class_of config n ≡ class_ide → Registered config n v
  unfolding register_class
  registers_ide present e =
      elim (register-IsTable config class_ide 4 v.ans n v.ide_device (omega arith) present e
        h.ide) [
          | inl (t, ok, new) ↦ inl (
            record v { ide_device = t },
            rw e (ap (with_table (λ t. record v { ide_device = t })) ok),
            record {
              pci = kept class_pci_bridge 16 v.pci_device (λ d. absurd (omega arith)) h.pci;
              usb = kept class_usb 8 v.usb_device (λ d. absurd (omega arith)) h.usb;
              sata = kept class_sata_bus 8 v.sata_device (λ d. absurd (omega arith)) h.sata;
              ide = new;
              isa = kept class_isa_bridge 4 v.isa_device (λ d. absurd (omega arith)) h.isa;
              ieee1394 =
                  kept class_ieee1394 4 v.ieee1394_device (λ d. absurd (omega arith)) h.ieee1394;
              sd = kept class_sd_host 4 v.sd_device (λ d. absurd (omega arith)) h.sd;
            },
            refl,
            refl,
          )
          | inr (bad, over) ↦ inr (
            rw e (ap (with_table (λ t. record v { ide_device = t })) bad),
            (class_ide, 4, refl, over),
          )
        ]

  registers_isa :
      is_present config n ≡ true → class_of config n ≡ class_isa_bridge → Registered config n v
  unfolding register_class
  registers_isa present e =
      elim (register-IsTable config class_isa_bridge 4 v.ans n v.isa_device (omega arith) present e
        h.isa) [
          | inl (t, ok, new) ↦ inl (
            record v { isa_device = t },
            rw e (ap (with_table (λ t. record v { isa_device = t })) ok),
            record {
              pci = kept class_pci_bridge 16 v.pci_device (λ d. absurd (omega arith)) h.pci;
              usb = kept class_usb 8 v.usb_device (λ d. absurd (omega arith)) h.usb;
              sata = kept class_sata_bus 8 v.sata_device (λ d. absurd (omega arith)) h.sata;
              ide = kept class_ide 4 v.ide_device (λ d. absurd (omega arith)) h.ide;
              isa = new;
              ieee1394 =
                  kept class_ieee1394 4 v.ieee1394_device (λ d. absurd (omega arith)) h.ieee1394;
              sd = kept class_sd_host 4 v.sd_device (λ d. absurd (omega arith)) h.sd;
            },
            refl,
            refl,
          )
          | inr (bad, over) ↦ inr (
            rw e (ap (with_table (λ t. record v { isa_device = t })) bad),
            (class_isa_bridge, 4, refl, over),
          )
        ]

  registers_ieee1394 :
      is_present config n ≡ true → class_of config n ≡ class_ieee1394 → Registered config n v
  unfolding register_class
  registers_ieee1394 present e =
      elim (register-IsTable config class_ieee1394 4 v.ans n v.ieee1394_device (omega arith) present
        e h.ieee1394) [
          | inl (t, ok, new) ↦ inl (
            record v { ieee1394_device = t },
            rw e (ap (with_table (λ t. record v { ieee1394_device = t })) ok),
            record {
              pci = kept class_pci_bridge 16 v.pci_device (λ d. absurd (omega arith)) h.pci;
              usb = kept class_usb 8 v.usb_device (λ d. absurd (omega arith)) h.usb;
              sata = kept class_sata_bus 8 v.sata_device (λ d. absurd (omega arith)) h.sata;
              ide = kept class_ide 4 v.ide_device (λ d. absurd (omega arith)) h.ide;
              isa = kept class_isa_bridge 4 v.isa_device (λ d. absurd (omega arith)) h.isa;
              ieee1394 = new;
              sd = kept class_sd_host 4 v.sd_device (λ d. absurd (omega arith)) h.sd;
            },
            refl,
            refl,
          )
          | inr (bad, over) ↦ inr (
            rw e (ap (with_table (λ t. record v { ieee1394_device = t })) bad),
            (class_ieee1394, 4, refl, over),
          )
        ]

  registers_sd :
      is_present config n ≡ true → class_of config n ≡ class_sd_host → Registered config n v
  unfolding register_class
  registers_sd present e =
      elim (register-IsTable config class_sd_host 4 v.ans n v.sd_device (omega arith) present e
        h.sd) [
          | inl (t, ok, new) ↦ inl (
            record v { sd_device = t },
            rw e (ap (with_table (λ t. record v { sd_device = t })) ok),
            record {
              pci = kept class_pci_bridge 16 v.pci_device (λ d. absurd (omega arith)) h.pci;
              usb = kept class_usb 8 v.usb_device (λ d. absurd (omega arith)) h.usb;
              sata = kept class_sata_bus 8 v.sata_device (λ d. absurd (omega arith)) h.sata;
              ide = kept class_ide 4 v.ide_device (λ d. absurd (omega arith)) h.ide;
              isa = kept class_isa_bridge 4 v.isa_device (λ d. absurd (omega arith)) h.isa;
              ieee1394 =
                  kept class_ieee1394 4 v.ieee1394_device (λ d. absurd (omega arith)) h.ieee1394;
              sd = new;
            },
            refl,
            refl,
          )
          | inr (bad, over) ↦ inr (
            rw e (ap (with_table (λ t. record v { sd_device = t })) bad),
            (class_sd_host, 4, refl, over),
          )
        ]

  registers_none :
      class_of config n ≢ class_pci_bridge
      → class_of config n ≢ class_usb
      → class_of config n ≢ class_sata_bus
      → class_of config n ≢ class_ide
      → class_of config n ≢ class_isa_bridge
      → class_of config n ≢ class_ieee1394
      → class_of config n ≢ class_sd_host
      → Registered config n v
  unfolding register_class
  registers_none d0 d1 d2 d3 d4 d5 d6 = inl (
    v,
    ground arith,
    record {
      pci = kept class_pci_bridge 16 v.pci_device d0 h.pci;
      usb = kept class_usb 8 v.usb_device d1 h.usb;
      sata = kept class_sata_bus 8 v.sata_device d2 h.sata;
      ide = kept class_ide 4 v.ide_device d3 h.ide;
      isa = kept class_isa_bridge 4 v.isa_device d4 h.isa;
      ieee1394 = kept class_ieee1394 4 v.ieee1394_device d5 h.ieee1394;
      sd = kept class_sd_host 4 v.sd_device d6 h.sd;
    },
    refl,
    refl,
  )

  -- Every function present is counted in its class, or its class has no room left.
  pub register_class-Registered : is_present config n ≡ true → Registered config n v
  register_class-Registered present =
      let class = class_of config n in
      elim (==_cases class class_pci_bridge) [
        | inl e ↦ registers_pci present e
        | inr d0 ↦ elim (==_cases class class_usb) [
          | inl e ↦ registers_usb present e
          | inr d1 ↦ elim (==_cases class class_sata_bus) [
            | inl e ↦ registers_sata present e
            | inr d2 ↦ elim (==_cases class class_ide) [
              | inl e ↦ registers_ide present e
              | inr d3 ↦ elim (==_cases class class_isa_bridge) [
                | inl e ↦ registers_isa present e
                | inr d4 ↦ elim (==_cases class class_ieee1394) [
                  | inl e ↦ registers_ieee1394 present e
                  | inr d5 ↦ elim (==_cases class class_sd_host) [
                    | inl e ↦ registers_sd present e
                    | inr d6 ↦ registers_none d0 d1 d2 d3 d4 d5 d6
                  ]
                ]
              ]
            ]
          ]
        ]
      ]
