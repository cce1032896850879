-- ===== src/Pci/Sound/Register.antt =====
-- The registration of a device in Include/device/PCI.h puts its number into the array of its class.
use open_ferain_os.Base.{
  ℕ, ◌+◌, ◌≤◌, ◌<◌, ◌≡◌, ◌∙◌, arith, refl, inl, inr, Bool-cases, Bool, true, false, length, set, u8,
  leb, ltb, ◌==◌, if◌then◌else◌, Option, none, some, length-set, get_or-set,
}
use open_ferain_os.Pci.{
  Inventory, Table, PcieDevice, register, register_class, with_table, class_usb, class_ide,
  class_sata_bus, class_isa_bridge, class_pci_bridge, class_ieee1394, class_sd_host,
}
use open_ferain_os.Pci.Sound.{kind_of, IsSound, AreSound, seven-AreSound}

abbrev IsSoundAfter : ℕ → ℕ → (ℕ → PcieDevice) → Option Table → Type 0
IsSoundAfter class ans device none = Unit
IsSoundAfter class ans device (some t) = IsSound class ans device t

-- The new device's number goes into the first free entry.
store-IsSound :
    (class ans : ℕ) (device : ℕ → PcieDevice) (t : Table)
    → IsSound class ans device t
    → IsSound class (ans + 1) device t
    → t.count ≤ 16
    → t.count < length t.entries
    → kind_of (device ans) ≡ class
    → IsSound class
        (ans + 1)
        device
        (record { entries = set t.entries t.count ans; count = u8 (t.count + 1) })
store-IsSound class ans device t before h small inside e =
    let at = λ (j : ℕ). get_or-set t.entries t.count j ans inside in
    record {
      listed = λ j below. ground (arith, at j, h.listed j);
      kind = λ j below. elim (Bool-cases (j == t.count)) [
        | inl last ↦ rw (at j) (rw last e)
        | inr other ↦ rw (at j) (rw other (h.kind j (ground (arith, other))))
      ];
      rising = λ j k order below. ground (arith, at j, at k, before.listed j, h.rising j k);
      free = λ j above below. ground (arith, at j, h.free j, length-set t.entries t.count ans);
    }

register-IsSound :
    (class ans limit : ℕ) (device : ℕ → PcieDevice) (t : Table)
    → IsSound class ans device t
    → IsSound class (ans + 1) device t
    → limit ≤ 16
    → kind_of (device ans) ≡ class
    → IsSoundAfter class (ans + 1) device (register limit ans t)
unfolding register
register-IsSound class ans limit device t before h small e = elim (Bool-cases (leb t.count limit)) [
  | inl room ↦
      rw (room, register)
        (elim (Bool-cases (ltb t.count (length t.entries))) [
          | inl inside ↦
              rw inside (store-IsSound class ans device t before h (ground arith) (ground arith) e)
          | inr outside ↦ rw outside tt
        ])
  | inr full ↦ rw (full, register) h
]

-- What registering device `ans` leaves, unless it stores outside an array.
abbrev pub AreSoundAfter : ℕ → Option Inventory → Type 0
AreSoundAfter ans none = Unit
AreSoundAfter ans (some v) = (v.ans ≡ ans) × AreSound (ans + 1) v

record IsRegistered (ans : ℕ) (o : Option Inventory) : Type 0 where
  pub after : AreSoundAfter ans o

with_table-IsRegistered :
    (class ans : ℕ) (device : ℕ → PcieDevice) (put : Table → Inventory) (o : Option Table)
    → IsSoundAfter class (ans + 1) device o
    → ((t : Table) → (put t).ans ≡ ans)
    → ((t : Table) → IsSound class (ans + 1) device t → AreSound (ans + 1) (put t))
    → IsRegistered ans (with_table put o)
with_table-IsRegistered class ans device put none h same all = record { after = tt }
with_table-IsRegistered class ans device put (some t) h same all = record {
  after = (same t, all t h);
}

choose :
    (ans : ℕ) (b : Bool) (x y : Option Inventory)
    → (b ≡ true → IsRegistered ans x)
    → IsRegistered ans y
    → IsRegistered ans (if b then x else y)
choose ans true x y p q = p refl
choose ans false x y p q = q

-- The chain of tests registers a device in the array of its class.
pub register_class-AreSound :
    (class : ℕ) (v : Inventory)
    → AreSound v.ans v
    → AreSound (v.ans + 1) v
    → kind_of (v.device v.ans) ≡ class
    → AreSoundAfter v.ans (register_class class v)
unfolding register_class
register_class-AreSound class v before h e =
    let a = v.ans in
    let store =
      λ (of limit : ℕ) (t : Table) (put : Table → Inventory) (old : IsSound of a v.device t)
          (grown : IsSound of (a + 1) v.device t) (small : limit ≤ 16)
          (same : (t : Table) → (put t).ans ≡ a)
          (all : (t : Table) → IsSound of (a + 1) v.device t → AreSound (a + 1) (put t))
          (is : class == of ≡ true).
        with_table-IsRegistered of a v.device put (register limit a t)
          (register-IsSound of a limit v.device t old grown small (e ∙ ground (arith, is))) same
          all in
    (choose a _ _ _
      (store class_pci_bridge 16 v.pci_device (λ t. record v { pci_device = t }) before.pci h.pci
        (omega arith) (λ t. refl)
        (λ t new.
          seven-AreSound (a + 1) (record v { pci_device = t }) new h.usb h.sata h.ide h.isa
            h.ieee1394 h.sd))
      (choose a _ _ _
        (store class_usb 8 v.usb_device (λ t. record v { usb_device = t }) before.usb h.usb
          (omega arith) (λ t. refl)
          (λ t new.
            seven-AreSound (a + 1) (record v { usb_device = t }) h.pci new h.sata h.ide h.isa
              h.ieee1394 h.sd))
        (choose a _ _ _
          (store class_sata_bus 8 v.sata_device (λ t. record v { sata_device = t }) before.sata
            h.sata (omega arith) (λ t. refl)
            (λ t new.
              seven-AreSound (a + 1) (record v { sata_device = t }) h.pci h.usb new h.ide h.isa
                h.ieee1394 h.sd))
          (choose a _ _ _
            (store class_ide 4 v.ide_device (λ t. record v { ide_device = t }) before.ide h.ide
              (omega arith) (λ t. refl)
              (λ t new.
                seven-AreSound (a + 1) (record v { ide_device = t }) h.pci h.usb h.sata new h.isa
                  h.ieee1394 h.sd))
            (choose a _ _ _
              (store class_isa_bridge 4 v.isa_device (λ t. record v { isa_device = t }) before.isa
                h.isa (omega arith) (λ t. refl)
                (λ t new.
                  seven-AreSound (a + 1) (record v { isa_device = t }) h.pci h.usb h.sata h.ide new
                    h.ieee1394 h.sd))
              (choose a _ _ _
                (store class_ieee1394 4 v.ieee1394_device (λ t. record v { ieee1394_device = t })
                  before.ieee1394 h.ieee1394 (omega arith) (λ t. refl)
                  (λ t new.
                    seven-AreSound (a + 1) (record v { ieee1394_device = t }) h.pci h.usb h.sata
                      h.ide h.isa new h.sd))
                (choose a _ _ _
                  (store class_sd_host 4 v.sd_device (λ t. record v { sd_device = t }) before.sd
                    h.sd (omega arith) (λ t. refl)
                    (λ t new.
                      seven-AreSound (a + 1) (record v { sd_device = t }) h.pci h.usb h.sata h.ide
                        h.isa h.ieee1394 new))
                  (record { after = (refl, h) })))))))).after
