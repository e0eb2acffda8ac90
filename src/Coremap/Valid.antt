-- ===== src/Coremap/Valid.antt =====
-- The invariant of the coremap.
use linux_like_os.Prelude.{
  ℕ, zero, suc, ◌+◌, ◌/◌, ◌^◌, ◌≤◌, ◌<◌, ◌≡◌, false, List, [], ◌∷◌, arith, if◌then◌else◌, length,
  set,
}
use linux_like_os.Prelude.Int.{ℤ, pos, ◌+ℤ◌, ◌-ℤ◌}
use linux_like_os.Coremap.{page_size, Coremap}
use linux_like_os.Coremap.Pages.{Page, is_free, page}

abbrev pub weight : Page → ℕ
weight p = if is_free p.state then 0 else 1

-- How many pages are not free.
unfoldable pub nonfree : List Page → ℕ
nonfree [] = 0
nonfree (p ∷ ps) = weight p + nonfree ps

-- The block of `n` pages from `b` on lies in the array and is in use: only its first page carries
-- a chunk size.
pub record IsBlock (ps : List Page) (b n : ℕ) : Type 0 where
  pub fits : b + n ≤ length ps
  pub in_use : (k : ℕ) → k < n → is_free (page ps (b + k)).state ≡ false
  pub inner : (k : ℕ) → 0 < k → k < n → (page ps (b + k)).chunk_size ≡ 0

-- The array covers physical memory from a page behind page 0 on; a free page has chunk size 0 and
-- every other chunk size is that of a block; the count is that of the pages in use from
-- `memory_start` on, the pages before it being in use for good.
pub record IsValid (c : Coremap) : Type 0 where
  pub covers : length c.pages ≡ c.memory_end / page_size
  pub addressable : c.memory_end < 2 ^ 32
  pub above_zero : 0 < c.memory_start / page_size
  pub inside : c.memory_start / page_size ≤ c.memory_end / page_size
  pub blocks : (b : ℕ) → b < length c.pages → IsBlock c.pages b (page c.pages b).chunk_size
  pub accounted : pos (nonfree c.pages) ≡ c.allocated +ℤ pos (c.memory_start / page_size)

pub nonfree-set :
    (ps : List Page) (i : ℕ) (v : Page)
    → i < length ps
    → nonfree (set ps i v) + weight (page ps i) ≡ nonfree ps + weight v
unfolding nonfree
nonfree-set [] i v h = absurd (omega arith)
nonfree-set (p ∷ ps) zero v h = omega arith
nonfree-set (p ∷ ps) (suc i) v h = omega (arith, nonfree-set ps i v)

pub accounted_more :
    (m m' n s : ℕ) (a : ℤ) → m' ≡ m + n → pos m ≡ a +ℤ pos s → pos m' ≡ a +ℤ pos n +ℤ pos s
unfolding ◌+ℤ◌
accounted_more m m' n s a e h = ground arith

pub accounted_less :
    (m m' n s : ℕ) (a : ℤ) → m' + n ≡ m → pos m ≡ a +ℤ pos s → pos m' ≡ a -ℤ pos n +ℤ pos s
unfolding ◌+ℤ◌ ◌-ℤ◌
accounted_less m m' n s a e h = ground arith
