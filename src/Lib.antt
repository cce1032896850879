-- ===== src/Lib.antt =====
-- OpenFerain OS: a small 32-bit kernel with its boot steps, console, task tables and devices.
--
-- The parts, and the files that model them:
--
-- Memory is a byte at each address; Memory has the little-endian accesses that dereferenced pointers
-- stand for. Machine has the system registers and the port bus of Include/asm/basic.h; what a device
-- answers is a parameter, a function of the traffic so far.
-- Paging: PDE_SET and PTE_SET of Include/asm/paging.h as pde_set and pte_set. Paging/Walk is the
-- processor's page walk, written from the architecture, against which the writers are checked.
-- Descriptor: set_gd and set_id of Include/asm/descriptor.h, against the processor's reading of the
-- two formats in Descriptor/Layout.
-- Video: the services of interrupt 0x41 in Include/asm/interrupt.h. Console: set_cursor,
-- test_scolling, printf and println of Include/stdio.h over them. A string is the list of its bytes;
-- Video/Print relates this to the service, which reads them from memory.
-- Task: the usage maps, the allocators and creat_task of Include/asm/task.h. Memory is read at the
-- addresses that the code computes; where the kernel's directory maps those from 4 MB on is not followed.
-- Init: the steps of Sources/init/init.c and init_main, over the addresses of the interrupt handlers.
-- Keyboard: the interrupt handler of Include/asm/interrupt.h, ISR_FOR_PS2, with its letter tables and
-- its switch; the condition is kept as C reads it.
-- Digits: Include/bit.h and Include/math.h: rotr, the hexadecimal digits, dec_digit, pow and abs. The
-- count of dec_digit has fuel 10, the most digits that a 32-bit number has.
-- Sha: sha256 of Include/hash/sha2.h with its static arrays; Sha/Standard is FIPS 180-4.
-- Pci: PCI_Enumeration of Include/device/PCI.h over the configuration ports, with its tables as one
-- inventory. A store outside an array ends the run as `overrun`; a read of device[1024] goes through
-- device_at, which gives none outside. Pci/Sound says what the arrays of controllers hold.
-- Pci/Bar is conf_bar, whose first line never lets the rest run. Pci/Survey says what an enumeration
-- should find.
-- Controllers: the six listings of Include/device/USB.h and its neighbours, over the same inventory. What
-- they should print is a list of texts, Controllers/Listing.
-- Loader: UefiMain of UEFIBIOS/OpenFerainOSPkg/entry.c, over the answers of the firmware, in the
-- IA32 build that RCOS_UEFI_Pkg.dsc names: statuses, sizes and addresses have 32 bits.
--
-- Shell: Sources/Application/CMD.c over the console and the hash. What it calls outside the C code is a
-- parameter, Services: interrupt 0x30, whose handler is the assembly at _VIDEO in Sources/Boot/16T32.asm,
-- print_time, which no C file defines, and test_scolling called without its argument. The
-- loop of main_func is polls, a list of the status and the key of each round. An access outside the array
-- `command` gives none; lines of up to 114 keys, line_max, keep every command inside it. Shell/Session
-- is the view of a user: a line that keys lengthen, shorten and empty.
--
-- Base has the shared names, Bits the laws of the operators on words at every width, Samples and the
-- modules called Examples the concrete inputs.
--
-- Numbers are natural numbers; a cast or a wrap is written out as a remainder. A `for` loop is
-- for_range, whose count is the source's. The two `while` loops of test_scolling carry fuel: 256 for the
-- one that counts a byte down, and one more than the value that falls by 80 for the other; both are
-- shown to end by their tests.
--
-- Not modelled: the assembly of Sources/Boot and Sources/init/init.s, the empty stubs of
-- Include/FileSystem and Include/device/DEVICERW.h, and the build files.
pub mod Base
pub mod Bits
pub mod Memory
pub mod Machine
pub mod Paging
pub mod Descriptor
pub mod Video
pub mod Console
pub mod Samples
pub mod Task
pub mod Init
pub mod Keyboard
pub mod Digits
pub mod Sha
pub mod Pci
pub mod Controllers
pub mod Loader
pub mod Shell
