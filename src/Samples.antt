-- ===== src/Samples.antt =====
-- Concrete inputs for the examples: an empty memory, machines and consoles over it.
use open_ferain_os.Base.{[], arith}
use open_ferain_os.Memory.{Memory, IsBytes}
use open_ferain_os.Machine.{Machine}
use open_ferain_os.Console.{System, IsConsole}

abbrev pub zeros : Memory
zeros x = 0

pub zeros-IsBytes : IsBytes zeros
zeros-IsBytes x = omega arith

abbrev pub machine : Machine
machine = record {
  mem = zeros;
  cr0 = 1;
  cr3 = 0;
  cr4 = 0;
  gdtr = record { limit = 0; base = 0 };
  idtr = record { limit = 0; base = 0 };
  traffic = [];
}

-- A console whose cursor stands in the last columns of the lowest text row.
abbrev pub system : System
system = record { machine = machine; color = 0x07; vmx = 78; vmy = 22 }

pub system-IsConsole : IsConsole system
system-IsConsole = record { column = omega arith; row = omega arith; bytes = zeros-IsBytes }
