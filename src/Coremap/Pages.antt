-- ===== src/Coremap/Pages.antt =====
-- kern/include/vm.h: the metadata of a page.
use linux_like_os.Prelude.{ℕ, Bool, true, false, Option, none, List, get_or}

-- `page_state`
pub data PageState : Type 0 where
  free fixed used in_eviction : PageState

-- `struct coremap_page`
pub record Page : Type 0 where
  pub chunk_size : ℕ
  pub state : PageState
  pub owner_addrspace : Option ℕ
  pub owner_vaddr : ℕ
  pub ref_bit : Bool

abbrev pub is_free : PageState → Bool
is_free free = true
is_free _ = false

abbrev pub is_used : PageState → Bool
is_used used = true
is_used _ = false

abbrev pub is_fixed : PageState → Bool
is_fixed fixed = true
is_fixed _ = false

abbrev pub is_evicting : PageState → Bool
is_evicting in_eviction = true
is_evicting _ = false

-- The page that `(struct coremap_page){ .state = free, .chunk_size = 0 }` writes.
abbrev pub free_page : Page
free_page = record {
  chunk_size = 0;
  state = free;
  owner_addrspace = none;
  owner_vaddr = 0;
  ref_bit = false;
}

-- The page at an index; beyond the array a page that nobody can take.
abbrev pub no_page : Page
no_page = record {
  chunk_size = 0;
  state = fixed;
  owner_addrspace = none;
  owner_vaddr = 0;
  ref_bit = false;
}

abbrev pub page : List Page → ℕ → Page
page ps i = get_or ps i no_page
