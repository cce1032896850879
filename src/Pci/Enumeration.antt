-- ===== src/Pci/Enumeration.antt =====
-- The whole enumeration.
use mathlib.Core.Path.{subst}
use open_ferain_os.Base.{
  ℕ, suc, ◌+◌, ◌*◌, ◌/◌, ◌%◌, ◌≤◌, ◌<◌, ◌≡◌, inl, inr, refl, ap, Bool-cases, [], ◌∷◌, length,
  get_or, for_range, for_range_inv, some, arith, length-append, get_or-append,
}
use open_ferain_os.Machine.{Devices}
use open_ferain_os.Console.{System}
use open_ferain_os.Pci.{
  Inventory, Outcome, running, returned, overrun, go_on, probe, pci_enumeration, class_usb,
  class_ide, class_sata_bus, class_isa_bridge, class_pci_bridge, class_ieee1394, class_sd_host,
}
use open_ferain_os.Pci.Survey.{
  Config, Answers, found, is_present, class_count, AreTables, IsOverfull, table_size,
}
use open_ferain_os.Pci.Probe.{IsSurveyed, probe-IsSurveyed, found-present, found-absent}

found-keeps :
    (config : Config) (n m : ℕ)
    → m < length (found config n)
    → (get_or (found config (suc n)) m 0 ≡ get_or (found config n) m 0)
      × (length (found config n) ≤ length (found config (suc n)))
found-keeps config n m h = elim (Bool-cases (is_present config n)) [
  | inl present ↦ rw (found-present config n present) (
    ground (arith, get_or-append (found config n) n m),
    omega (arith, length-append (found config n) (n ∷ [])),
  )
  | inr absent ↦ rw (found-absent config n absent) (refl, omega arith)
]

pub class_count-keeps :
    (config : Config) (class n : ℕ) → class_count config class n ≤ class_count config class (suc n)
unfolding class_count
class_count-keeps config class n = ground arith

module _ (config : Config) (hw : Devices) (answers : Answers config hw) where
  go_on-IsSurveyed :
      (i j k n : ℕ) (o : Outcome (Inventory × System))
      → n ≡ i * 256 + j * 8 + k
      → i < 256
      → j < 32
      → k < 8
      → IsSurveyed config n o
      → IsSurveyed config (suc n) (go_on (probe hw i j k) o)
  go_on-IsSurveyed i j k n (running (v, s)) e hi hj hk (listed, tables) =
      let ei : n / 256 ≡ i = omega arith in
      let ej : n / 8 % 32 ≡ j = omega arith in
      let ek : n % 8 ≡ k = omega arith in
      subst (λ t. IsSurveyed config (suc n) (probe hw t j k (v, s))) ei
        (subst (λ t. IsSurveyed config (suc n) (probe hw (n / 256) t k (v, s))) ej
          (subst (λ t. IsSurveyed config (suc n) (probe hw (n / 256) (n / 8 % 32) t (v, s))) ek
            (probe-IsSurveyed config hw n v s answers (omega arith) listed tables)))
  go_on-IsSurveyed i j k n (returned (v, s)) e hi hj hk (full, more, devices) = (
    full,
    omega (arith, found-keeps config n 0),
    λ m below. let (same, _) = found-keeps config n m (omega arith) in rw same (devices m below),
  )
  go_on-IsSurveyed i j k n overrun e hi hj hk (class, size, sized, over) =
      (class, size, sized, omega (arith, class_count-keeps config class n))

  next :
      (n n' : ℕ) (o : Outcome (Inventory × System))
      → n ≡ n'
      → IsSurveyed config n o
      → IsSurveyed config n' o
  next n n' o e h = subst (λ t. IsSurveyed config t o) e h

  functions-IsSurveyed :
      (i j : ℕ) (o : Outcome (Inventory × System))
      → i < 256
      → j < 32
      → IsSurveyed config (i * 256 + j * 8) o
      → IsSurveyed config (i * 256 + (j + 1) * 8) (for_range 8 0 (λ k. go_on (probe hw i j k)) o)
  functions-IsSurveyed i j o hi hj start =
      next (i * 256 + j * 8 + 8) (i * 256 + (j + 1) * 8) _ (omega arith) (
        for_range_inv (λ k. IsSurveyed config (i * 256 + j * 8 + k)) (λ k. go_on (probe hw i j k)) 0
          8
          (λ k state low below now.
            next (suc (i * 256 + j * 8 + k)) (i * 256 + j * 8 + (k + 1)) _ (omega arith)
              (go_on-IsSurveyed i j k (i * 256 + j * 8 + k) state refl hi hj below now))
          8 0 o (omega arith) (omega arith)
          (next (i * 256 + j * 8) (i * 256 + j * 8 + 0) o (omega arith) start))

  devices-IsSurveyed :
      (i : ℕ) (o : Outcome (Inventory × System))
      → i < 256
      → IsSurveyed config (i * 256) o
      → IsSurveyed config
          ((i + 1) * 256)
          (for_range 32 0 (λ j. for_range 8 0 (λ k. go_on (probe hw i j k))) o)
  devices-IsSurveyed i o hi start = next (i * 256 + 32 * 8) ((i + 1) * 256) _ (omega arith) (
      for_range_inv (λ j. IsSurveyed config (i * 256 + j * 8))
        (λ j. for_range 8 0 (λ k. go_on (probe hw i j k))) 0 32
        (λ j state low below now. functions-IsSurveyed i j state hi below now) 32 0 o (omega arith)
        (omega arith) (next (i * 256) (i * 256 + 0 * 8) o (omega arith) start))

-- The tables before an enumeration: empty, and of their declared sizes.
abbrev pub IsEmpty : Inventory → Type 0
IsEmpty v = AreTables (λ i j k reg. 0xffff) 0 v

-- On a machine whose host bridge answers from a configuration space, and with empty tables, the
-- enumeration lists the functions that are present in the order of bus, device and function, each
-- with its vendor, class and header and base addresses 1 to 5 left at 0, and counts every class in
-- its array; it returns early exactly after 1024 devices with another one left; and a store outside
-- an array happens only if some class has more functions than its array entries.
pub pci_enumeration-IsSurveyed :
    (config : Config) (hw : Devices) (v : Inventory) (s : System)
    → Answers config hw
    → IsEmpty v
    → IsSurveyed config 65536 (pci_enumeration hw (v, s))
unfolding pci_enumeration class_count found
pci_enumeration-IsSurveyed config hw v s answers empty =
    next config hw answers (256 * 256) 65536 _ (omega arith) (
      for_range_inv (λ i. IsSurveyed config (i * 256))
        (λ i. for_range 32 0 (λ j. for_range 8 0 (λ k. go_on (probe hw i j k)))) 0 256
        (λ i state low below now. devices-IsSurveyed config hw answers i state below now) 256 0 _
        (omega arith) (omega arith)
        (
          record { counted = refl; room = omega arith; devices = λ m below. absurd (omega arith) },
          record {
            pci = empty.pci;
            usb = empty.usb;
            sata = empty.sata;
            ide = empty.ide;
            isa = empty.isa;
            ieee1394 = empty.ieee1394;
            sd = empty.sd;
          },
        ))

-- A class of the seven with its array's size counts no more than that.
AreTables-fits :
    (config : Config) (class size n : ℕ) (v : Inventory)
    → AreTables config n v
    → table_size class ≡ some size
    → class_count config class n ≤ size
AreTables-fits config class size n v h sized =
    let count = λ (c : ℕ) (e : class ≡ c). ap (λ (t : ℕ). class_count config t n) e in
    ground (
      arith,
      h.pci,
      h.usb,
      h.sata,
      h.ide,
      h.isa,
      h.ieee1394,
      h.sd,
      count class_pci_bridge,
      count class_usb,
      count class_sata_bus,
      count class_ide,
      count class_isa_bridge,
      count class_ieee1394,
      count class_sd_host,
    )

IsSurveyed-overrun :
    (config : Config) (n : ℕ) (o : Outcome (Inventory × System))
    → IsSurveyed config n o
    → IsOverfull config n
    → length (found config n) ≤ 1024
    → o ≡ overrun
IsSurveyed-overrun config n (running (v, s)) (listed, tables) (class, size, sized, over) few =
    absurd (omega (arith, AreTables-fits config class size n v tables sized))
IsSurveyed-overrun config n (returned (v, s)) (full, more, devices) overfull few =
    absurd (omega arith)
IsSurveyed-overrun config n overrun done overfull few = refl

-- With at most 1024 functions present, one controller more than a class's array holds makes the
-- enumeration store outside the array.
pub pci_enumeration_overruns :
    (config : Config) (hw : Devices) (v : Inventory) (s : System)
    → Answers config hw
    → IsEmpty v
    → IsOverfull config 65536
    → length (found config 65536) ≤ 1024
    → pci_enumeration hw (v, s) ≡ overrun
pci_enumeration_overruns config hw v s answers empty overfull few =
    IsSurveyed-overrun config 65536 (pci_enumeration hw (v, s))
      (pci_enumeration-IsSurveyed config hw v s answers empty) overfull few
