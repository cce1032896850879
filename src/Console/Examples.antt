-- ===== src/Console/Examples.antt =====
-- The console and the screen services on concrete texts.
use open_ferain_os.Base.{
  ℕ, ◌+◌, ◌*◌, ◌≤◌, ◌<◌, ◌≡◌, refl, inl, arith, List, codes, get_or, length, u32,
}
use open_ferain_os.Samples.{zeros, zeros-IsBytes, system, system-IsConsole}
use open_ferain_os.Video.{write_base, print_text, video_isr_print_string, vm_scolling}
use open_ferain_os.Video.Scroll.{IsScrolled, vm_scolling-IsScrolled}
use open_ferain_os.Video.Print.{IsPrinted, print_text-IsPrinted, video_isr_print_string-IsPrinted}
use open_ferain_os.Console.{settle, wrap_rows, test_scolling, printf, println, IsConsole}
use open_ferain_os.Console.Cursor.{IsPlaced, test_scolling-IsPlaced}
use open_ferain_os.Console.Output.{IsWritten, printf-IsWritten, println-IsWritten}

abbrev text : List ℕ
text = codes "[PCI] Found"

-- Six cells left in the lowest row: the screen scrolls once and the text starts one row higher.
placed_runs : (test_scolling 11 system).0 ≡ 21 * 256 + 78
unfolding test_scolling settle wrap_rows
placed_runs = refl

vm_scolling-IsScrolled_example : IsScrolled zeros (vm_scolling zeros)
vm_scolling-IsScrolled_example = vm_scolling-IsScrolled zeros zeros-IsBytes

print_text-IsPrinted_example :
    IsPrinted
      (λ i. get_or text i 0)
      (write_base 0x154e)
      0x07
      zeros
      (length text)
      (print_text text 0x154e 0x07 zeros)
print_text-IsPrinted_example =
    print_text-IsPrinted text 0x154e 0x07 zeros (omega arith) (omega arith) zeros-IsBytes

video_isr_print_string-IsPrinted_example :
    IsPrinted
      (λ i. zeros (u32 (0x9000 + i)))
      (write_base 0x0100)
      0x70
      zeros
      12
      (video_isr_print_string 0x9000 0x0100 12 0x70 zeros)
video_isr_print_string-IsPrinted_example =
    video_isr_print_string-IsPrinted 0x9000 0x0100 12 0x70 zeros (omega arith) (omega arith)
      zeros-IsBytes (inl below)
  where
    below : 0x9000 + 12 ≤ write_base 0x0100
    below = unfold write_base in omega arith

test_scolling-IsPlaced_example :
    IsPlaced system 11 (test_scolling 11 system).0 (test_scolling 11 system).1
test_scolling-IsPlaced_example =
    test_scolling-IsPlaced 11 system (omega arith) (omega arith) (omega arith)

printf-IsWritten_example :
    (w : IsWritten system text (printf text system).machine.mem) × (w.first + length text
      ≡ (printf text system).vmy * 80 + (printf text system).vmx)
    × IsConsole (printf text system)
    × ((printf text system).vmy < 23)
    × ((printf text system).color ≡ system.color)
printf-IsWritten_example = printf-IsWritten text system system-IsConsole (omega arith) (omega arith)

println-IsWritten_example :
    IsWritten system text (println text system).machine.mem
    × IsConsole (println text system)
    × ((println text system).vmx ≡ 0)
    × ((println text system).vmy ≡ (printf text system).vmy + 1)
    × ((println text system).color ≡ system.color)
println-IsWritten_example =
    println-IsWritten text system system-IsConsole (omega arith) (omega arith)
