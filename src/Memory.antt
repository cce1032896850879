-- ===== src/Memory.antt =====
-- Physical memory as the kernel writes it through `volatile` pointers: a byte at each address, and
-- little-endian reads and writes of 16 and 32 bits. An access never runs over the top of the
-- address space here, so the addresses of a word's bytes do not wrap.
mod Access
mod Laws
unfoldable pub use Access.{Memory, IsBytes, load8, store8, load16, store16, load32, store32}
pub use Laws.*
