-- ===== src/Pci/Kept.antt =====
-- What the whole enumeration keeps beside its tables.
use open_ferain_os.Base.{
  ℕ, ◌+◌, ◌≡◌, ◌≤◌, ◌<◌, arith, inl, inr, Bool-cases, codes, u8, u16, u32, leb, ◌==◌, for_range,
  for_range_inv, Option, none, some, bit_and, ◌>>>◌,
}
use open_ferain_os.Machine.{Devices, outpd}
use open_ferain_os.Console.{System, IsConsole}
use open_ferain_os.Console.Kept.{IsKept, IsKept-trans, println-IsKept}
use open_ferain_os.Pci.{
  Inventory, PcieDevice, Outcome, running, returned, overrun, go_on, probe, pci_enumeration,
  register_class, read_config, conf_bars, conf_bar, convert_to_32data, pcie_device_max, put_device,
}
use open_ferain_os.Pci.Sound.{AreSound, AreSound-ans, AreSound-put_device}
use open_ferain_os.Pci.Sound.Register.{AreSoundAfter, register_class-AreSound}
use open_ferain_os.Pci.Messages.{read_config-IsKept, messages-IsKept}

-- The machine of a run that has not left an array, and its arrays.
abbrev pub IsUndisturbed : System → Outcome (Inventory × System) → Type 0
IsUndisturbed s (running (v, t)) = IsKept s t × ((v.ans ≤ 1024) × AreSound v.ans v)
IsUndisturbed s (returned (v, t)) = IsKept s t × ((v.ans ≤ 1024) × AreSound v.ans v)
IsUndisturbed s overrun = Unit

abbrev finish : System → Option Inventory → Outcome (Inventory × System)
finish t o = elim o [ none ↦ overrun | some v ↦ running (record v { ans = u32 (v.ans + 1) }, t) ]

finish-IsUndisturbed :
    (s t : System) (ans : ℕ) (o : Option Inventory)
    → IsKept s t
    → ans < 1024
    → AreSoundAfter ans o
    → IsUndisturbed s (finish t o)
finish-IsUndisturbed s t ans none k few h = tt
finish-IsUndisturbed s t ans (some v) k few (same, sound) =
    let e : u32 (v.ans + 1) ≡ ans + 1 = omega (arith, same) in
    rw e (k, (omega arith, AreSound-ans (ans + 1) v sound))

outpd-IsKept :
    (port operand : ℕ) (s t : System)
    → IsKept s t
    → IsKept s (record t { machine = outpd port operand t.machine })
unfolding outpd
outpd-IsKept port operand s t k =
    let r = k.registers in
    record {
      console = record { column = k.console.column; row = k.console.row; bytes = k.console.bytes };
      outside = k.outside;
      registers = record { cr0 = r.cr0; cr3 = r.cr3; cr4 = r.cr4; gdtr = r.gdtr; idtr = r.idtr };
    }

probe-IsUndisturbed :
    (hw : Devices) (i j k : ℕ) (v : Inventory) (s t : System)
    → IsKept s t
    → v.ans ≤ 1024
    → AreSound v.ans v
    → IsUndisturbed s (probe hw i j k (v, t))
unfolding probe conf_bars conf_bar
probe-IsUndisturbed hw i j k v s t kept few sound =
    let t1 = (read_config hw i j k 0 t).1 in
    let t2 = (read_config hw i j k 2 t1).1 in
    let t3 = (read_config hw i j k 3 t2).1 in
    let k1 = IsKept-trans s t t1 kept (read_config-IsKept hw i j k 0 t kept.console) in
    let k2 = IsKept-trans s t1 t2 k1 (read_config-IsKept hw i j k 2 t1 k1.console) in
    let k3 = IsKept-trans s t2 t3 k2 (read_config-IsKept hw i j k 3 t2 k2.console) in
    let k4 = outpd-IsKept 0xcf8 (convert_to_32data (u8 i) (u8 j) (u8 k) 4) s t3 k3 in
    let d : PcieDevice = record (v.device v.ans) {
      bus = u8 i;
      device = u8 j;
      function = u8 k;
      vendor_id = u16 (read_config hw i j k 0 t).0;
      class_code = (read_config hw i j k 2 t1).0 >>> 8;
      header_type = u8 ((read_config hw i j k 3 t2).0 >>> 16);
      conf_base1 = 0;
      conf_base2 = 0;
      conf_base3 = 0;
      conf_base4 = 0;
      conf_base5 = 0;
    } in
    let w : Inventory = record v { continue_flag = 1; device = put_device v.ans d v.device } in
    let class = bit_and ((read_config hw i j k 2 t1).0 >>> 8) 0xffff00 in
    elim (Bool-cases (u16 (read_config hw i j k 0 t).0 == 0xffff)) [
      | inl absent ↦ rw (absent, probe) (k1, (few, sound))
      | inr present ↦
          rw (present, probe)
            (elim (Bool-cases (leb pcie_device_max v.ans)) [
              | inl full ↦ rw full (k1, (few, sound))
              | inr room ↦ rw room (
                  finish-IsUndisturbed s _ v.ans (register_class class w)
                    (IsKept-trans s _ _ k4 (messages-IsKept i j k class _ k4.console))
                    (ground (arith, room))
                    (register_class-AreSound class w
                      (AreSound-put_device v.ans d v sound (omega arith))
                      (AreSound-put_device (v.ans + 1) d v sound (omega arith)) (ground arith)))
            ])
    ]

go_on-IsUndisturbed :
    (hw : Devices) (i j k : ℕ) (o : Outcome (Inventory × System)) (s : System)
    → IsUndisturbed s o
    → IsUndisturbed s (go_on (probe hw i j k) o)
go_on-IsUndisturbed hw i j k (running (v, t)) s h =
    probe-IsUndisturbed hw i j k v s t h.0 h.1.0 h.1.1
go_on-IsUndisturbed hw i j k (returned (v, t)) s h = h
go_on-IsUndisturbed hw i j k overrun s h = h

-- Whatever the devices answer, from arrays with free entries only, an enumeration that stays in its
-- arrays changes no system register and no memory but the screen, has at most 1024 devices, and leaves
-- in each array of controllers numbers of devices of its class and behind them free entries.
pub pci_enumeration-IsUndisturbed :
    (hw : Devices) (v : Inventory) (s : System)
    → IsConsole s
    → AreSound 0 (record v { ans = 0 })
    → IsUndisturbed s (pci_enumeration hw (v, s))
unfolding pci_enumeration
pci_enumeration-IsUndisturbed hw v s c sound =
    let first = println-IsKept (codes "[PCI] PCI starts enumerating devices") s (ground arith) c in
    let P = λ (i : ℕ) (o : Outcome (Inventory × System)). IsUndisturbed s o in
    for_range_inv P (λ i. for_range 32 0 (λ j. for_range 8 0 (λ k. go_on (probe hw i j k)))) 0 256
      (λ i o low below now.
        for_range_inv P (λ j. for_range 8 0 (λ k. go_on (probe hw i j k))) 0 32
          (λ j o low below now.
            for_range_inv P (λ k. go_on (probe hw i j k)) 0 8
              (λ k o low below now. go_on-IsUndisturbed hw i j k o s now) 8 0 o (omega arith)
              (omega arith) now)
          32 0 o (omega arith) (omega arith) now)
      256 0 _ (omega arith) (omega arith) (first, (omega arith, sound))
