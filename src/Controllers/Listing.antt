-- ===== src/Controllers/Listing.antt =====
-- What a listing prints, read off the array.
use mathlib.Core.Path.{subst}
use open_ferain_os.Base.{
  inl, inr, Bool-cases, ℕ, suc, ◌+◌, ◌<◌, ◌≡◌, ◌≢◌, codes, refl, ap, arith, true, List, [], ◌∷◌,
  ◌++◌, length, get_or, ◌==◌, ltb, if◌then◌else◌, none, some, length-append,
}
use open_ferain_os.Console.{System, printf, println}
use open_ferain_os.Digits.{dec_digit}
use open_ferain_os.Sha.{c_string}
use open_ferain_os.Pci.{PcieDevice, Inventory, device_at}
use open_ferain_os.Controllers.{
  Texts, print_controller, list_rounds, list_controllers, pci_sdhost_enu, pci_isa_enu, pci_ide_enu,
  pci_sata_enu, pci_usb_enu, pci_ieee1394_enu, isa_texts, ide_texts, sata_texts, usb_texts,
  ieee1394_texts,
}

-- The entries before the first free one.
abbrev pub used : List ℕ → List ℕ
used [] = []
used (x ∷ xs) = let rest = used xs in if x == 0xffffffff then [] else x ∷ rest

-- A text without or with a row's end.
pub data Call : Type 0 where
  part : List ℕ → Call
  line : List ℕ → Call

abbrev pub show : List Call → System → System
show [] s = s
show (part text ∷ calls) s = show calls (printf text s)
show (line text ∷ calls) s = show calls (println text s)

abbrev pub decimal : ℕ → List ℕ
decimal n = c_string (dec_digit n)

-- Two rows for controller `i`: its number, and the bus, the device and the function it is at.
abbrev pub controller_report : Texts → ℕ → PcieDevice → List Call → List Call
controller_report texts i d rest =
    part texts.item
    ∷ line (decimal i)
    ∷ part texts.located
    ∷ part (codes " Bus : ")
    ∷ part (decimal d.bus)
    ∷ part (codes " Device : ")
    ∷ part (decimal d.device)
    ∷ part (codes " Function : ")
    ∷ line (decimal d.function)
    ∷ rest

abbrev pub report_all : Texts → (ℕ → PcieDevice) → ℕ → List ℕ → List Call
report_all texts device i [] = []
report_all texts device i (x ∷ xs) =
    controller_report texts i (device x) (report_all texts device (i + 1) xs)

-- The entries before the first free one are numbers of the 1024 devices.
abbrev pub AreDevices : List ℕ → Type 0
AreDevices [] = Unit
AreDevices (x ∷ xs) = (x ≢ 0xffffffff → (x < 1024) × AreDevices xs)

pub numbers-AreDevices :
    (xs : List ℕ)
    → ((j : ℕ) → j < length xs → get_or xs j 0 ≢ 0xffffffff → get_or xs j 0 < 1024)
    → AreDevices xs
numbers-AreDevices [] h = tt
numbers-AreDevices (x ∷ xs) h =
    λ taken. (h 0 (omega arith) taken, numbers-AreDevices xs (λ j below. h (suc j) (omega arith)))

get_or-middle :
    (before after : List ℕ) (x : ℕ) → get_or (before ++ (x ∷ after)) (length before) 0 ≡ x
get_or-middle [] after x = refl
get_or-middle (y ∷ before) after x = get_or-middle before after x

append_assoc :
    (before after : List ℕ) (x : ℕ) → before ++ (x ∷ after) ≡ (before ++ (x ∷ [])) ++ after
append_assoc [] after x = refl
append_assoc (y ∷ before) after x = ap (λ t. y ∷ t) (append_assoc before after x)

list_rounds-show :
    (texts : Texts) (v : Inventory) (after before : List ℕ) (s : System)
    → AreDevices after
    → list_rounds texts (device_at v) (before ++ after) (length after) (length before) s
      ≡ some (show (report_all texts v.device (length before) (used after)) s)
unfolding list_rounds print_controller
list_rounds-show texts v [] before s h = refl
list_rounds-show texts v (x ∷ after) before s h =
    let all = before ++ (x ∷ after) in
    let i = length before in
    let d = v.device x in
    let s' = print_controller texts i d s in
    let here : get_or all i 0 ≡ x = get_or-middle before after x in
    let inside : ltb i (length all) ≡ true = ground (arith, length-append before (x ∷ after)) in
    let place : length (before ++ (x ∷ [])) ≡ i + 1 =
      omega (arith, length-append before (x ∷ [])) in
    let ih : AreDevices after
        → list_rounds texts (device_at v) all (length after) (i + 1) s'
          ≡ some (show (report_all texts v.device (i + 1) (used after)) s') =
      λ fine. rw (append_assoc before after x) (
        subst
          (λ (n : ℕ).
            list_rounds texts (device_at v) ((before ++ (x ∷ [])) ++ after) (length after) n s'
            ≡ some (show (report_all texts v.device n (used after)) s'))
          place (list_rounds-show texts v after (before ++ (x ∷ [])) s' fine)) in
    rw here (
      rw inside (elim (Bool-cases (x == 0xffffffff)) [
        | inl free ↦ rw free refl
        | inr taken ↦
            let (small, fine) = h (ground (arith, taken)) in
            let listed : ltb x 1024 ≡ true = ground arith in rw taken (rw listed (ih fine))
      ]))

-- What a listing should print: the message that there is none, or two rows for each entry in use.
abbrev pub report : Texts → (ℕ → PcieDevice) → List ℕ → List Call
report texts device entries =
    line texts.start
    ∷ (if get_or entries 0 0 == 0xffffffff
        then line texts.missing ∷ []
        else report_all texts device 0 (used entries))

abbrev pub listing : Texts → (ℕ → PcieDevice) → List ℕ → System → System
listing texts device entries = show (report texts device entries)

list_controllers-listing :
    (texts : Texts) (rounds : ℕ) (v : Inventory) (entries : List ℕ) (s : System)
    → length entries ≡ rounds
    → AreDevices entries
    → list_controllers texts rounds (device_at v) entries s
      ≡ some (listing texts v.device entries s)
unfolding list_controllers
list_controllers-listing texts rounds v entries s sized h =
    let s' = println texts.start s in
    let whole : list_rounds texts (device_at v) entries rounds 0 s'
        ≡ some (show (report_all texts v.device 0 (used entries)) s') =
      subst
        (λ (n : ℕ).
          list_rounds texts (device_at v) entries n 0 s'
          ≡ some (show (report_all texts v.device 0 (used entries)) s'))
        sized (list_rounds-show texts v entries [] s' h) in
    elim (Bool-cases (get_or entries 0 0 == 0xffffffff)) [
      | inl free ↦ rw free refl
      | inr taken ↦ rw taken whole
    ]

-- With arrays of the declared sizes, whose entries before the first free one are numbers below 1024,
-- five of the six listings stay in their array and in the array of devices and print, for each of these
-- entries in order, its number and its device's bus, device and function, or that there is none.
pub listings_of_registered :
    (v : Inventory) (s : System)
    → length v.isa_device.entries ≡ 4
    → length v.ide_device.entries ≡ 4
    → length v.sata_device.entries ≡ 8
    → length v.usb_device.entries ≡ 8
    → length v.ieee1394_device.entries ≡ 4
    → AreDevices v.isa_device.entries
    → AreDevices v.ide_device.entries
    → AreDevices v.sata_device.entries
    → AreDevices v.usb_device.entries
    → AreDevices v.ieee1394_device.entries
    → (pci_isa_enu v s ≡ some (listing isa_texts v.device v.isa_device.entries s))
      × (pci_ide_enu v s ≡ some (listing ide_texts v.device v.ide_device.entries s))
      × (pci_sata_enu v s ≡ some (listing sata_texts v.device v.sata_device.entries s))
      × (pci_usb_enu v s ≡ some (listing usb_texts v.device v.usb_device.entries s))
      × (pci_ieee1394_enu v s ≡ some (listing ieee1394_texts v.device v.ieee1394_device.entries s))
unfolding pci_isa_enu pci_ide_enu pci_sata_enu pci_usb_enu pci_ieee1394_enu
listings_of_registered v s isa ide sata usb ieee1394 isa_fine ide_fine sata_fine usb_fine
      ieee1394_fine =
    (
      list_controllers-listing isa_texts 4 v v.isa_device.entries s isa isa_fine,
      list_controllers-listing ide_texts 4 v v.ide_device.entries s ide ide_fine,
      list_controllers-listing sata_texts 8 v v.sata_device.entries s sata sata_fine,
      list_controllers-listing usb_texts 8 v v.usb_device.entries s usb usb_fine,
      list_controllers-listing ieee1394_texts 4 v v.ieee1394_device.entries s ieee1394
          ieee1394_fine,
    )

-- The listing of SD hosts has eight rounds: with all four entries of its array in use it reads behind
-- the array.
pub pci_sdhost_enu_overruns :
    (v : Inventory) (s : System) (a b c d : ℕ)
    → v.sd_device.entries ≡ a ∷ b ∷ c ∷ d ∷ []
    → a < 1024
    → b < 1024
    → c < 1024
    → d < 1024
    → pci_sdhost_enu v s ≡ none
unfolding pci_sdhost_enu list_controllers list_rounds
pci_sdhost_enu_overruns v s a b c d e ha hb hc hd = rw e (ground arith)
