-- ===== src/Paging.antt =====
-- Include/asm/paging.h: the page directory and page table writers `PDE_SET` and `PTE_SET`.
-- `Paging/Walk` describes the two-level walk of the processor, `Paging/Laws` relates the two.
pub mod Walk
pub mod Laws
mod Examples
use open_ferain_os.Base.{ℕ, ◌+◌, ◌*◌, ◌^◌, ◌%◌, bit_and, bit_or, ltb, if◌then◌else◌, u32, ◌<<<◌}
use open_ferain_os.Memory.{Memory, store32}

abbrev pub kernel_pd_phy_addr : ℕ
kernel_pd_phy_addr = 0x00000000

abbrev pub kernel_pt_phy_addr : ℕ
kernel_pt_phy_addr = 0x00001000

abbrev pub p_user : ℕ
p_user = 0x01

abbrev pub p_system : ℕ
p_system = 0x00

abbrev pub p_read_write : ℕ
p_read_write = 0x01

abbrev pub p_only_read : ℕ
p_only_read = 0x00

abbrev pub p_present : ℕ
p_present = 0x01

abbrev pub page_size : ℕ
page_size = 0x1000

-- The word that both writers build from an address and the three flags.
unfoldable pub page_entry : ℕ → ℕ → ℕ → ℕ → ℕ
page_entry addr us rw_flag p =
    bit_or
      (bit_or (bit_or (bit_and addr 0xfffff000) (bit_and us 0x01 <<< 2))
        (bit_and rw_flag 0x01 <<< 1))
      (bit_and p 0x01)

unfoldable pub pde_set : ℕ → ℕ → ℕ → ℕ → ℕ → ℕ → Memory → Memory
pde_set pde_num pd_phy_base pt_phy_addr us rw_flag p m =
    if ltb 1023 pde_num
    then m
    else store32 m (u32 (pd_phy_base + pde_num * 4)) (page_entry pt_phy_addr us rw_flag p)

unfoldable pub pte_set : ℕ → ℕ → ℕ → ℕ → ℕ → ℕ → Memory → Memory
pte_set pte_num pt_phy_base page_phy_addr us rw_flag p m =
    if ltb 1023 pte_num
    then m
    else store32 m (u32 (pt_phy_base + pte_num * 4)) (page_entry page_phy_addr us rw_flag p)
