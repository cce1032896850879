-- ===== src/Pci/Messages.antt =====
-- The enumeration's messages fit the screen, and keep what printing keeps.
use open_ferain_os.Base.{
  ℕ, zero, suc, ◌+◌, ◌≤◌, ◌<◌, ◌≡◌, ◌∙◌, arith, refl, inl, inr, Bool-cases, true, false, List, [],
  ◌∷◌, codes, length, replicate, set, length-set, u8, ◌==◌, ◌/◌, ◌%◌, Bool, if◌then◌else◌,
  IsByteList,
}
use open_ferain_os.Machine.{Devices, outpd, inpd}
use open_ferain_os.Console.{System, IsConsole}
use open_ferain_os.Console.Kept.{
  IsKept, IsKept-refl, IsKept-trans, IsShown, println-IsKept, then_printf, then_println,
}
use open_ferain_os.Digits.{dec_digit, put_digits, count_digits}
use open_ferain_os.Sha.{c_string}
use open_ferain_os.Pci.{found_message, class_message, read_config}

set-IsByteList : (xs : List ℕ) (i v : ℕ) → IsByteList xs → v < 256 → IsByteList (set xs i v)
set-IsByteList [] i v h b = h
set-IsByteList (x ∷ xs) zero v h b = (b, h.1)
set-IsByteList (x ∷ xs) (suc i) v h b = (h.0, set-IsByteList xs i v h.1 b)

c_string-IsByteList : (xs : List ℕ) → IsByteList xs → IsByteList (c_string xs)
c_string-IsByteList [] h = h
c_string-IsByteList (x ∷ xs) h = elim (Bool-cases (x == 0)) [
  | inl end ↦ rw end tt
  | inr more ↦ rw more (h.0, c_string-IsByteList xs h.1)
]

length-c_string : (xs : List ℕ) → length (c_string xs) ≤ length xs
length-c_string [] = omega arith
length-c_string (x ∷ xs) = ground (arith, length-c_string xs)

put_digits-IsByteList :
    (i num : ℕ) (s : List ℕ)
    → IsByteList s
    → IsByteList (put_digits i num s) × (length (put_digits i num s) ≡ length s)
unfolding put_digits
put_digits-IsByteList zero num s h = (h, refl)
put_digits-IsByteList (suc i) num s h =
    let c = u8 (num % 10 + 0x30) in
    let stored = set-IsByteList s i c h (omega arith) in
    let size = length-set s i c in
    elim (Bool-cases (num / 10 == 0)) [
      | inl last ↦ rw (last, put_digits) (stored, size)
      | inr more ↦
          rw (more, put_digits)
            (let ih = put_digits-IsByteList i (num / 10) (set s i c) stored in (ih.0, ih.1 ∙ size))
    ]

-- The decimal text of any number is short.
pub dec_digit-IsShown : (num : ℕ) → IsShown (c_string (dec_digit num))
unfolding dec_digit
dec_digit-IsShown num =
    let (bytes, size) =
      put_digits-IsByteList (count_digits 10 num 0) num (replicate 12 0) (ground arith) in
    (
      c_string-IsByteList (dec_digit num) bytes,
      omega (arith, size, length-c_string (dec_digit num)),
    )

found_message-IsKept : (i j k : ℕ) (s : System) → IsConsole s → IsKept s (found_message i j k s)
unfolding found_message
found_message-IsKept i j k s c =
    let start = IsKept-refl s c in
    let found = then_printf s s (codes "[PCI] Found Device -- ") start (ground arith) in
    let bus =
      then_printf s _ (c_string (dec_digit i))
        (then_printf s _ (codes "Bus : ") found (ground arith)) (dec_digit-IsShown i) in
    let device =
      then_printf s _ (c_string (dec_digit j))
        (then_printf s _ (codes " ; Device : ") bus (ground arith)) (dec_digit-IsShown j) in
    then_println s _ (c_string (dec_digit k))
      (then_printf s _ (codes " ; Function : ") device (ground arith)) (dec_digit-IsShown k)

one_of : (b : Bool) (s t u : System) → IsKept s t → IsKept s u → IsKept s (if b then t else u)
one_of true s t u p q = p
one_of false s t u p q = q

class_message-IsKept : (class : ℕ) (s : System) → IsConsole s → IsKept s (class_message class s)
unfolding class_message
class_message-IsKept class s c =
    one_of _ s _ _ (println-IsKept (codes "[PCI] Device is PCI Bridge!") s (ground arith) c) (
      one_of _ s _ _ (println-IsKept (codes "[PCI] Device is USB Controller!") s (ground arith) c) (
        one_of _ s _ _ (println-IsKept (codes "[PCI] Device is SATA Bus") s (ground arith) c) (
          one_of _ s _ _
            (println-IsKept (codes "[PCI] Device is IDE Controller!") s (ground arith) c)
            (one_of _ s _ _
              (println-IsKept (codes "[PCI] Device is ISA Bridge!") s (ground arith) c)
              (one_of _ s _ _
                (println-IsKept (codes "[PCI] Device is IEEE1394 Controller!") s (ground arith) c)
                (one_of _ s _ _
                  (println-IsKept (codes "[PCI] Device is SD Host Controller!") s (ground arith) c)
                  (IsKept-refl s c)))))))

pub read_config-IsKept :
    (hw : Devices) (i j k reg : ℕ) (s : System)
    → IsConsole s
    → IsKept s (read_config hw i j k reg s).1
unfolding read_config outpd inpd
read_config-IsKept hw i j k reg s c = record {
  console = record { column = c.column; row = c.row; bytes = c.bytes };
  outside = λ x o. refl;
  registers = record { cr0 = refl; cr3 = refl; cr4 = refl; gdtr = refl; idtr = refl };
}

-- The two messages of a function found.
pub messages-IsKept :
    (i j k class : ℕ) (s : System)
    → IsConsole s
    → IsKept s (class_message class (found_message i j k s))
messages-IsKept i j k class s c =
    let first = found_message-IsKept i j k s c in
    IsKept-trans s (found_message i j k s) (class_message class (found_message i j k s)) first
      (class_message-IsKept class (found_message i j k s) first.console)
