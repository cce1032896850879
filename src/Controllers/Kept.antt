-- ===== src/Controllers/Kept.antt =====
-- The listings keep what printing keeps.
use open_ferain_os.Base.{
  ℕ, ◌+◌, ◌≡◌, arith, refl, inl, inr, Bool-cases, List, [], ◌∷◌, get_or, ◌==◌, some,
}
use open_ferain_os.Console.{System, printf, println}
use open_ferain_os.Console.Kept.{IsKept, IsShown, then_printf, then_println}
use open_ferain_os.Pci.{PcieDevice, Inventory}
use open_ferain_os.Pci.Messages.{dec_digit-IsShown}
use open_ferain_os.Controllers.{Texts, list_controllers, pci_sdhost_enu, sdhost_texts}
use open_ferain_os.Controllers.Listing.{Call, part, line, show, used, report_all, listing}

pub record AreShown (texts : Texts) : Type 0 where
  pub start : IsShown texts.start
  pub missing : IsShown texts.missing
  pub item : IsShown texts.item
  pub located : IsShown texts.located

-- Calls with texts that fit the screen.
abbrev AreShownCalls : List Call → Type 0
AreShownCalls [] = Unit
AreShownCalls (part text ∷ calls) = IsShown text × AreShownCalls calls
AreShownCalls (line text ∷ calls) = IsShown text × AreShownCalls calls

show-IsKept :
    (calls : List Call) (s t : System) → AreShownCalls calls → IsKept s t → IsKept s (show calls t)
show-IsKept [] s t h k = k
show-IsKept (part text ∷ calls) s t h k =
    show-IsKept calls s (printf text t) h.1 (then_printf s t text k h.0)
show-IsKept (line text ∷ calls) s t h k =
    show-IsKept calls s (println text t) h.1 (then_println s t text k h.0)

report_all-AreShownCalls :
    (texts : Texts) (device : ℕ → PcieDevice) (i : ℕ) (xs : List ℕ)
    → AreShown texts
    → AreShownCalls (report_all texts device i xs)
report_all-AreShownCalls texts device i [] h = tt
report_all-AreShownCalls texts device i (x ∷ xs) h =
    let d = device x in
    let rest = report_all-AreShownCalls texts device (i + 1) xs h in
    (
      h.item,
      (
        dec_digit-IsShown i,
        (
          h.located,
          (
            ground arith,
            (
              dec_digit-IsShown d.bus,
              (
                ground arith,
                (dec_digit-IsShown d.device, (ground arith, (dec_digit-IsShown d.function, rest))),
              ),
            ),
          ),
        ),
      ),
    )

pub listing-IsKept :
    (texts : Texts) (device : ℕ → PcieDevice) (entries : List ℕ) (s t : System)
    → AreShown texts
    → IsKept s t
    → IsKept s (listing texts device entries t)
listing-IsKept texts device entries s t h k = elim (Bool-cases (get_or entries 0 0 == 0xffffffff)) [
  | inl free ↦
      rw free
        (show-IsKept (line texts.start ∷ line texts.missing ∷ []) s t (h.start, (h.missing, tt)) k)
  | inr taken ↦ rw taken (
      show-IsKept (line texts.start ∷ report_all texts device 0 (used entries)) s t
        (h.start, report_all-AreShownCalls texts device 0 (used entries) h) k)
]

-- Without an SD host the listing of eight rounds stays in its array.
pub pci_sdhost_enu-listing :
    (v : Inventory) (s : System)
    → get_or v.sd_device.entries 0 0 ≡ 0xffffffff
    → pci_sdhost_enu v s ≡ some (listing sdhost_texts v.device v.sd_device.entries s)
unfolding pci_sdhost_enu list_controllers
pci_sdhost_enu-listing v s free = rw free refl
