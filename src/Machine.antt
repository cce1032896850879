-- ===== src/Machine.antt =====
-- What the inline assembly of Include/asm touches: the processor's system registers, memory and the
-- port bus. What a device answers on a port is not in the sources, so an input takes the answer
-- from a parameter, a function of all traffic so far.
use open_ferain_os.Base.{ℕ, List, ◌∷◌, bit_or}
use open_ferain_os.Memory.{Memory}

-- One access to a port, with its width in bytes in the name.
pub data PortEvent : Type 0 where
  out8 : ℕ → ℕ → PortEvent
  out32 : ℕ → ℕ → PortEvent
  in8 : ℕ → PortEvent
  in32 : ℕ → PortEvent

-- The operands of `lgdt` and `lidt`.
pub record TableRegister : Type 0 where
  pub limit : ℕ
  pub base : ℕ

pub record Machine : Type 0 where
  pub mem : Memory
  pub cr0 : ℕ
  pub cr3 : ℕ
  pub cr4 : ℕ
  pub gdtr : TableRegister
  pub idtr : TableRegister
  pub traffic : List PortEvent

-- The devices behind the ports: the answer to an input, from the traffic before it, newest first.
pub record Devices : Type 0 where
  pub answer8 : List PortEvent → ℕ → ℕ
  pub answer32 : List PortEvent → ℕ → ℕ

-- Include/asm/basic.h. The traffic is kept newest first.
unfoldable pub outpb : ℕ → ℕ → Machine → Machine
outpb port operand s = record s { traffic = out8 port operand ∷ s.traffic }

unfoldable pub outpd : ℕ → ℕ → Machine → Machine
outpd port operand s = record s { traffic = out32 port operand ∷ s.traffic }

unfoldable pub inpb : Devices → ℕ → Machine → ℕ × Machine
inpb hw port s = (hw.answer8 s.traffic port, record s { traffic = in8 port ∷ s.traffic })

unfoldable pub inpd : Devices → ℕ → Machine → ℕ × Machine
inpd hw port s = (hw.answer32 s.traffic port, record s { traffic = in32 port ∷ s.traffic })

-- A change of memory alone.
abbrev pub on_mem : (Memory → Memory) → Machine → Machine
on_mem f s = record s { mem = f s.mem }

-- Include/asm/paging.h and Include/asm/descriptor.h: the loads of the system registers.
unfoldable pub load_cr3 : ℕ → Machine → Machine
load_cr3 pd_addr s = record s { cr3 = pd_addr }

unfoldable pub paging_enable : Machine → Machine
paging_enable s = record s { cr0 = bit_or s.cr0 0x80000000 }

unfoldable pub gdtr_init : ℕ → ℕ → Machine → Machine
gdtr_init limit base s = record s { gdtr = record { limit = limit; base = base } }

unfoldable pub idtr_init : ℕ → ℕ → Machine → Machine
idtr_init limit base s = record s { idtr = record { limit = limit; base = base } }
