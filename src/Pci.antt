-- ===== src/Pci.antt =====
-- Include/device/PCI.h: the search of the configuration space for devices. The global tables are an
-- inventory beside the console; the printing of a number goes through `num_string`, which is read
-- at once and not kept.
mod Space
mod Bar
unfoldable pub use Space.*
unfoldable pub use Bar.*
pub mod Address
pub mod Survey
pub mod Tables
pub mod Probe
pub mod Enumeration
pub mod Sound
pub mod Messages
pub mod Kept
pub mod Samples
mod Examples
use open_ferain_os.Base.{
  ℕ, ◌+◌, ◌*◌, ◌/◌, ◌%◌, ◌^◌, Bool, true, false, List, [], ◌∷◌, codes, length, ◌==◌, leb, ltb,
  if◌then◌else◌, bit_and, bit_or, u8, u16, u32, ◌<<<◌, ◌>>>◌, set, for_range, Option, none, some,
}
use open_ferain_os.Machine.{Machine, Devices, outpd, inpd}
use open_ferain_os.Console.{System, printf, println}
use open_ferain_os.Digits.{dec_digit}
use open_ferain_os.Sha.{c_string}

abbrev pub put_device : ℕ → PcieDevice → (ℕ → PcieDevice) → ℕ → PcieDevice
put_device n d devices i = if i == n then d else devices i

-- The loop over `l`: `l = 0` is false, the five other assignments are true, and the last leaves 5 in
-- `l`, so that there is one round.
unfoldable pub conf_bars :
    Devices → ℕ → ℕ → ℕ → PcieDevice → Inventory × System → PcieDevice × Inventory × System
unfolding conf_bar
conf_bars hw i j k d (v, s) =
    let (base1, v, s) = conf_bar hw i j k 1 (v, s) in
    let (base2, v, s) = conf_bar hw i j k 2 (v, s) in
    let (base3, v, s) = conf_bar hw i j k 3 (v, s) in
    let (base4, v, s) = conf_bar hw i j k 4 (v, s) in
    let (base5, v, s) = conf_bar hw i j k 5 (v, s) in
    (
      record d {
        conf_base1 = base1;
        conf_base2 = base2;
        conf_base3 = base3;
        conf_base4 = base4;
        conf_base5 = base5;
      },
      v,
      s,
    )

-- `if(count <= limit){ entries[count] = ans; count += 1; }`; none where the store leaves the array.
unfoldable pub register : ℕ → ℕ → Table → Option Table
register limit ans t =
    if leb t.count limit
    then if ltb t.count (length t.entries)
      then some (record { entries = set t.entries t.count ans; count = u8 (t.count + 1) })
      else none
    else some t

abbrev pub with_table : (Table → Inventory) → Option Table → Option Inventory
with_table put none = none
with_table put (some t) = some (put t)

-- The chain of tests on the class: the inventory with the device registered.
unfoldable pub register_class : ℕ → Inventory → Option Inventory
unfolding register
register_class class v =
    let store = λ (limit : ℕ) (t : Table) (put : Table → Inventory).
      with_table put (register limit v.ans t) in
    if class == class_pci_bridge
    then store 16 v.pci_device (λ t. record v { pci_device = t })
    else if class == class_usb
    then store 8 v.usb_device (λ t. record v { usb_device = t })
    else if class == class_sata_bus
    then store 8 v.sata_device (λ t. record v { sata_device = t })
    else if class == class_ide
    then store 4 v.ide_device (λ t. record v { ide_device = t })
    else if class == class_isa_bridge
    then store 4 v.isa_device (λ t. record v { isa_device = t })
    else if class == class_ieee1394
    then store 4 v.ieee1394_device (λ t. record v { ieee1394_device = t })
    else if class == class_sd_host
    then store 4 v.sd_device (λ t. record v { sd_device = t })
    else some v

-- The message of the same chain.
unfoldable pub class_message : ℕ → System → System
class_message class s =
    if class == class_pci_bridge
    then println (codes "[PCI] Device is PCI Bridge!") s
    else if class == class_usb
    then println (codes "[PCI] Device is USB Controller!") s
    else if class == class_sata_bus
    then println (codes "[PCI] Device is SATA Bus") s
    else if class == class_ide
    then println (codes "[PCI] Device is IDE Controller!") s
    else if class == class_isa_bridge
    then println (codes "[PCI] Device is ISA Bridge!") s
    else if class == class_ieee1394
    then println (codes "[PCI] Device is IEEE1394 Controller!") s
    else if class == class_sd_host
    then println (codes "[PCI] Device is SD Host Controller!") s
    else s

unfoldable pub found_message : ℕ → ℕ → ℕ → System → System
found_message i j k s =
    let s = printf (codes "[PCI] Found Device -- ") s in
    let s = printf (c_string (dec_digit i)) (printf (codes "Bus : ") s) in
    let s = printf (c_string (dec_digit j)) (printf (codes " ; Device : ") s) in
    println (c_string (dec_digit k)) (printf (codes " ; Function : ") s)

-- What is left of an enumeration: it goes on, it has returned, or it has stored outside an array,
-- after which nothing is promised.
pub data Outcome {ℓ} (A : Type ℓ) : Type ℓ where
  running : A → Outcome A
  returned : A → Outcome A
  overrun : Outcome A

abbrev pub go_on {ℓ} : {A : Type ℓ} → (A → Outcome A) → Outcome A → Outcome A
go_on f (running a) = f a
go_on f (returned a) = returned a
go_on f overrun = overrun

-- The body of the innermost loop of `PCI_Enumeration`.
unfoldable pub probe : Devices → ℕ → ℕ → ℕ → Inventory × System → Outcome (Inventory × System)
unfolding read_config conf_bars register_class class_message found_message convert_to_32data outpd
probe hw i j k (v, s) =
    let (vendor, s) = read_config hw i j k 0 s in
    let vendor = u16 vendor in
    if vendor == 0xffff
    then running (v, s)
    else if leb pcie_device_max v.ans
    then returned (v, s)
    else let (class, s) = read_config hw i j k 2 s in
      let (header, s) = read_config hw i j k 3 s in
      let s = record s {
        machine = outpd 0xcf8 (convert_to_32data (u8 i) (u8 j) (u8 k) 4) s.machine;
      } in
      let d = record (v.device v.ans) {
        bus = u8 i;
        device = u8 j;
        function = u8 k;
        vendor_id = vendor;
        class_code = class >>> 8;
        header_type = u8 (header >>> 16);
      } in
      let (d, v, s) = conf_bars hw i j k d (v, s) in
      let v = record v { device = put_device v.ans d v.device } in
      let s = found_message i j k s in
      let kind = bit_and d.class_code 0xffff00 in
      let s = class_message kind s in
      elim (register_class kind v) [
        | none ↦ overrun
        | some v ↦ running (record v { ans = u32 (v.ans + 1) }, s)
      ]

unfoldable pub pci_enumeration : Devices → Inventory × System → Outcome (Inventory × System)
unfolding probe
pci_enumeration hw (v, s) =
    let s = println (codes "[PCI] PCI starts enumerating devices") s in
    for_range 256 0 (λ i. for_range 32 0 (λ j. for_range 8 0 (λ k. go_on (probe hw i j k))))
      (running (record v { ans = 0 }, s))
