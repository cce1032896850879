-- ===== src/Console/Output.antt =====
-- What `printf` and `println` put on the screen, and that the console stays well formed.
use mathlib.Core.Path.{subst}
use open_ferain_os.Base.{
  ℕ, ◌+◌, ◌-◌, ◌*◌, ◌/◌, ◌≤◌, ◌<◌, ◌≡◌, ◌⊎◌, arith, refl, ◌∙◌, List, length, get_or, IsByteList,
}
use open_ferain_os.Memory.{Memory, IsBytes}
use open_ferain_os.Machine.{outpb}
use open_ferain_os.Video.{cursor_set, write_base}
use open_ferain_os.Video.Scroll.{vm_scolling-IsScrolled}
use open_ferain_os.Video.Print.{IsPrinted, print_text-IsPrinted, write_base_value}
use open_ferain_os.Console.{System, set_cursor, test_scolling, printf, println, IsConsole}
use open_ferain_os.Console.Cursor.{
  IsPlaced, Scrolls, still, once_more, Scrolls-IsBytes, test_scolling-IsPlaced,
}

-- A text on the screen: its first cell, counting row by row, lies where the cursor stood but for
-- the rows scrolled meanwhile, which are those by which the row behind the text lies under row 22;
-- each byte stands in its cell under the colour; all other bytes of memory are those that the
-- scrolls left.
pub record IsWritten (s : System) (text : List ℕ) (m : Memory) : Type 0 where
  pub first : ℕ
  pub rows : ℕ
  pub scrolled_mem : Memory
  pub scrolled : Scrolls s.machine.mem rows scrolled_mem
  pub start : first + rows * 80 ≡ s.vmy * 80 + s.vmx
  pub needed : rows ≡ s.vmy + (s.vmx + length text) / 80 - 22
  pub within : first + length text < 23 * 80
  pub printed :
      IsPrinted (λ i. get_or text i 0) (0xb8000 + first * 2) s.color scrolled_mem (length text) m

module _ (text : List ℕ) (s : System) (c : IsConsole s) (bytes : IsByteList text)
    (short : s.vmx + length text < 23 * 80) where
  placed :
      IsPlaced s (length text) (test_scolling (length text) s).0 (test_scolling (length text) s).1
  placed = test_scolling-IsPlaced (length text) s c.column (omega (arith, c.row)) short

  base_of_first :
      write_base (test_scolling (length text) s).0 ≡ 0xb8000 + (placed.start_row * 80 + s.vmx) * 2
  base_of_first = omega (
    arith,
    write_base_value (test_scolling (length text) s).0,
    placed.start,
    placed.within,
    c.column,
  )

  -- A text of bytes that ends within 23 rows of the start of the cursor's row is written by
  -- `printf` from the cursor on, in the current colour, wholly inside the screen's 23 rows for text; the
  -- screen is scrolled by exactly the rows by which the row behind the text lies under row 22; the cursor
  -- then stands right behind the text, the colour is kept and the console stays well formed.
  pub printf-IsWritten :
      (w : IsWritten s text (printf text s).machine.mem) × (w.first + length text
        ≡ (printf text s).vmy * 80 + (printf text s).vmx)
      × IsConsole (printf text s)
      × ((printf text s).vmy < 23)
      × ((printf text s).color ≡ s.color)
  unfolding printf
  printf-IsWritten =
      let t = (test_scolling (length text) s).1 in
      let p : IsPrinted (λ i. get_or text i 0) (0xb8000 + (placed.start_row * 80 + s.vmx) * 2)
          s.color t.machine.mem (length text) (printf text s).machine.mem =
        subst
          (λ color.
            IsPrinted (λ i. get_or text i 0) (0xb8000 + (placed.start_row * 80 + s.vmx) * 2) color
              t.machine.mem (length text) (printf text s).machine.mem)
          placed.color
          (subst
            (λ base.
              IsPrinted (λ i. get_or text i 0) base t.color t.machine.mem (length text)
                (printf text s).machine.mem)
            base_of_first
            (print_text-IsPrinted text (test_scolling (length text) s).0 t.color t.machine.mem bytes
              (omega arith) (Scrolls-IsBytes c.bytes placed.scrolled))) in
      (
        record {
          first = placed.start_row * 80 + s.vmx;
          rows = placed.rows;
          scrolled_mem = t.machine.mem;
          scrolled = placed.scrolled;
          start = omega (arith, placed.up);
          needed = placed.needed;
          within = omega (arith, placed.sequence, placed.row, placed.column);
          printed = p;
        },
        placed.sequence,
        record { column = placed.column; row = omega (arith, placed.row); bytes = p.bytes },
        placed.row,
        placed.color,
      )

  -- `println` writes the same, and takes the cursor to the start of the row under the text's last
  -- cell; the console stays well formed.
  pub println-IsWritten :
      IsWritten s text (println text s).machine.mem
      × IsConsole (println text s)
      × ((println text s).vmx ≡ 0)
      × ((println text s).vmy ≡ (printf text s).vmy + 1)
      × ((println text s).color ≡ s.color)
  unfolding println set_cursor cursor_set outpb
  println-IsWritten =
      let (w, _, console, low, color) = printf-IsWritten in
      (
        w,
        record { column = omega arith; row = omega (arith, low); bytes = console.bytes },
        refl,
        omega (arith, low),
        color,
      )

-- Scrolling and printing stay inside the 24 rows of the screen.
pub Scrolls-outside :
    {m s : Memory} {n : ℕ} (x : ℕ)
    → IsBytes m
    → Scrolls m n s
    → (x < 0xb8000) ⊎ (0xb8000 + 24 * 160 ≤ x)
    → s x ≡ m x
Scrolls-outside x h still o = refl
Scrolls-outside x h (once_more r) o =
    (vm_scolling-IsScrolled _ (Scrolls-IsBytes h r)).outside x o ∙ Scrolls-outside x h r o

pub println_outside :
    (text : List ℕ) (s : System) (x : ℕ)
    → IsConsole s
    → IsByteList text
    → s.vmx + length text < 23 * 80
    → (x < 0xb8000) ⊎ (0xb8000 + 24 * 160 ≤ x)
    → (println text s).machine.mem x ≡ s.machine.mem x
println_outside text s x c b short o =
    let w = (println-IsWritten text s c b short).0 in
    w.printed.outside x (omega (arith, w.within)) ∙ Scrolls-outside x c.bytes w.scrolled o
