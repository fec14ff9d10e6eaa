-- ===== src/Memory/Page.antt =====
-- kernel/src/memory/page.rs: addresses of pages and the permissions of a mapping.
use rustic_os.Base.{
  ℕ, ◌%◌, ◌^◌, Bool, true, false, not, ◌&&◌, ◌||◌, leb, ltb, ◌==◌, Option, none, some,
  if◌then◌else◌,
}

abbrev pub page_size : ℕ
page_size = 4096

unfoldable pub canonical : ℕ → Bool
canonical address = leb address 0x00007fffffffffff || leb 0xffff800000000000 address

-- `VirtualPage::new`: a page is its address.
unfoldable pub virtual_page : ℕ → Option ℕ
virtual_page address =
    if leb page_size address && ltb address (2 ^ 47) && (address % page_size == 0)
    then some address
    else none

pub record PagePermissions : Type 0 where
  pub writable : Bool
  pub executable : Bool
  pub user : Bool

abbrev pub read_only : PagePermissions
read_only = record { writable = false; executable = false; user = false }

abbrev pub read_write : PagePermissions
read_write = record { writable = true; executable = false; user = false }

abbrev pub code : PagePermissions
code = record { writable = false; executable = true; user = false }

unfoldable pub valid : PagePermissions → Bool
valid p = not (p.writable && p.executable)
