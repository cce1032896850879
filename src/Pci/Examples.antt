-- ===== src/Pci/Examples.antt =====
-- A bus with 17 bridges.
use open_ferain_os.Base.{
  ℕ, zero, suc, ◌+◌, ◌/◌, ◌%◌, ◌^◌, ◌≤◌, ◌≡◌, refl, ap, ◌∙◌, List, [], ◌∷◌, length, ◌==◌, ◌&&◌, ltb,
  if◌then◌else◌, arith,
}
use open_ferain_os.Machine.{Devices, PortEvent, out32}
use open_ferain_os.Samples.{system}
use open_ferain_os.Pci.{convert_to_32data, pci_enumeration, overrun, class_pci_bridge}
use open_ferain_os.Pci.Samples.{empty, empty-IsEmpty}
use open_ferain_os.Pci.Address.{convert_to_32data-fields, convert_to_32data-IsInjective}
use open_ferain_os.Pci.Survey.{Config, Answers, found, class_count}
use open_ferain_os.Pci.Probe.{IsSurveyed, found-absent}
use open_ferain_os.Pci.Enumeration.{
  class_count-keeps, pci_enumeration-IsSurveyed, pci_enumeration_overruns,
}

abbrev bridges : Config
bridges i j k reg =
    if i == 0 && (k == 0 && ltb j 17)
    then if reg == 0 then 0x12378086 else 0x06040000
    else 0xffffffff

abbrev host_answer : List PortEvent → ℕ
host_answer [] = 0
host_answer (out32 port a ∷ t) =
    bridges (a / 2 ^ 16 % 2 ^ 8) (a / 2 ^ 11 % 32) (a / 2 ^ 8 % 8) (a / 4 % 64)
host_answer (_ ∷ t) = 0

abbrev host : Devices
host = record { answer8 = λ t p. 0; answer32 = λ t p. host_answer t }

host-Answers : Answers bridges host
host-Answers i j k reg t hi hj hk hr =
    let e = convert_to_32data-fields i j k reg hi in
    let a = convert_to_32data i j k reg in
    let ei : a / 2 ^ 16 % 2 ^ 8 ≡ i = omega (arith, e) in
    let ej : a / 2 ^ 11 % 32 ≡ j = omega (arith, e) in
    let ek : a / 2 ^ 8 % 8 ≡ k = omega (arith, e) in
    let er : a / 4 % 64 ≡ reg = omega (arith, e) in rw ei (rw ej (rw ek (rw er refl)))

class_count-le :
    (config : Config) (class n d : ℕ)
    → class_count config class n ≤ class_count config class (d + n)
class_count-le config class n zero =
    omega (arith, ap (λ (t : ℕ). class_count config class t) {x = n} {y = 0 + n} (omega arith))
class_count-le config class n (suc d) = omega (
  arith,
  ap (λ (t : ℕ). class_count config class t) {x = suc (d + n)} {y = suc d + n} (omega arith),
  class_count-keeps config class (d + n),
  class_count-le config class n d,
)

seventeen : class_count bridges class_pci_bridge 256 ≡ 17
unfolding class_count
seventeen = refl

quiet : (d : ℕ) → found bridges (d + 256) ≡ found bridges 256
quiet zero = refl
quiet (suc d) =
    ap (λ (t : ℕ). found bridges t) {x = suc d + 256} {y = suc (d + 256)} (omega arith)
    ∙ found-absent bridges (d + 256) (ground arith)
    ∙ quiet d

listed_17 : length (found bridges 256) ≡ 17
unfolding found
listed_17 = refl

pci_enumeration-IsSurveyed_example : IsSurveyed bridges 65536 (pci_enumeration host (empty, system))
pci_enumeration-IsSurveyed_example =
    pci_enumeration-IsSurveyed bridges host empty system host-Answers empty-IsEmpty

pci_enumeration_overruns_example : pci_enumeration host (empty, system) ≡ overrun
pci_enumeration_overruns_example =
    pci_enumeration_overruns bridges host empty system host-Answers empty-IsEmpty
      (
        class_pci_bridge,
        16,
        refl,
        omega (arith, seventeen, class_count-le bridges class_pci_bridge 256 65280),
      )
      (omega (arith, listed_17, ap length (quiet 65280)))

convert_to_32data-IsInjective_example :
    (◌≡◌ {A = ℕ} 1 1) × (◌≡◌ {A = ℕ} 2 2) × (◌≡◌ {A = ℕ} 3 3) × (◌≡◌ {A = ℕ} 4 4)
convert_to_32data-IsInjective_example =
    convert_to_32data-IsInjective 1 2 3 4 1 2 3 4 (omega arith) (omega arith) (omega arith)
      (omega arith) (omega arith) (omega arith) (omega arith) (omega arith) refl
