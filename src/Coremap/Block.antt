-- ===== src/Coremap/Block.antt =====
-- What the loops over the pages of a block do to the array.
use linux_like_os.Coremap.Valid.{weight, nonfree, nonfree-set}
use native.Mathlib.Numerals.{add-one}
use linux_like_os.Prelude.{
  ℕ, zero, suc, ◌+◌, ◌≤◌, ◌<◌, ◌≡◌, refl, ap, ◌∙◌, subst, true, false, List, arith, ℕ_discrete,
  length, set, length-set, get_or-set, get_elem?-some, get_or-set_self, ok,
}
use linux_like_os.Coremap.{for_pages}
use linux_like_os.Coremap.Pages.{Page, is_free, no_page, page}

-- How many of the `n` pages from `b` on are not free.
unfoldable pub block_weight : List Page → ℕ → ℕ → ℕ
block_weight ps b zero = 0
block_weight ps b (suc n) = block_weight ps b n + weight (page ps (b + n))

block_weight_cong :
    (ps qs : List Page) (b n : ℕ)
    → ((k : ℕ) → k < n → page ps (b + k) ≡ page qs (b + k))
    → block_weight ps b n ≡ block_weight qs b n
unfolding block_weight
block_weight_cong ps qs b zero same = refl
block_weight_cong ps qs b (suc n) same =
    ground (arith, block_weight_cong ps qs b n (λ k hk. same k (omega arith)), same n (omega arith))

pub block_weight_free :
    (ps : List Page) (b n : ℕ)
    → ((k : ℕ) → k < n → is_free (page ps (b + k)).state ≡ true)
    → block_weight ps b n ≡ 0
unfolding block_weight
block_weight_free ps b zero fr = refl
block_weight_free ps b (suc n) fr =
    ground (arith, block_weight_free ps b n (λ k hk. fr k (omega arith)), fr n (omega arith))

pub block_weight_used :
    (ps : List Page) (b n : ℕ)
    → ((k : ℕ) → k < n → is_free (page ps (b + k)).state ≡ false)
    → block_weight ps b n ≡ n
unfolding block_weight
block_weight_used ps b zero fr = refl
block_weight_used ps b (suc n) fr =
    ground (arith, block_weight_used ps b n (λ k hk. fr k (omega arith)), fr n (omega arith))

-- The array after `f` was applied to the `n` pages from `b` on, and to no other.
pub record Mapped (f : ℕ → Page → Page) (b n : ℕ) (ps ps' : List Page) : Type 0 where
  pub same_length : length ps' ≡ length ps
  pub changed : (k : ℕ) → k < n → page ps' (b + k) ≡ f k (page ps (b + k))
  pub below : (j : ℕ) → j < b → page ps' j ≡ page ps j
  pub above : (j : ℕ) → b + n ≤ j → page ps' j ≡ page ps j
  pub count : nonfree ps' + block_weight ps b n ≡ nonfree ps + block_weight ps' b n

module _ (f : ℕ → Page → Page) (b n : ℕ) (ps : List Page) (fits : b + n ≤ length ps) where
  count_step :
      (i : ℕ) (next qs : List Page) {v : Page}
      → page qs (b + i) ≡ page ps (b + i)
      → page next (b + i) ≡ v
      → block_weight next b i ≡ block_weight qs b i
      → nonfree next + weight (page qs (b + i)) ≡ nonfree qs + weight v
      → nonfree qs + block_weight ps b i ≡ nonfree ps + block_weight qs b i
      → nonfree next + block_weight ps b (i + 1) ≡ nonfree ps + block_weight next b (i + 1)
  unfolding block_weight
  count_step i next qs here last kept step before =
      let a = ap weight here in let z = ap weight last in rw add-one (omega arith)

  -- The first `i` pages are done.
  for_pages-loop :
      (r i : ℕ) (qs : List Page)
      → i + r ≡ n
      → Mapped f b i ps qs
      → (ps' : List Page) × (for_pages f r i b qs ≡ ok ps') × Mapped f b n ps ps'
  unfolding for_pages
  for_pages-loop zero i qs e m = (qs, refl, subst (λ t. Mapped f b t ps qs) (omega arith) m)
  for_pages-loop (suc r) i qs e m =
      let inside : b + i < length qs = omega (arith, m.same_length) in
      let next : List Page = set qs (b + i) (f i (page qs (b + i))) in
      let here : page qs (b + i) ≡ page ps (b + i) = m.above (b + i) (omega arith) in
      let m' : Mapped f b (i + 1) ps next = record {
        same_length = length-set qs (b + i) _ ∙ m.same_length;
        changed = λ k hk. elim (ℕ_discrete k i) [
          | yes last ↦ rw last (get_or-set_self qs (b + i) _ no_page inside ∙ ap (f i) here)
          | no before ↦ ground (
            arith,
            get_or-set qs (b + i) (b + k) (f i (page qs (b + i))) no_page inside,
            m.changed k,
          )
        ];
        below = λ j hj.
            ground
              (arith, get_or-set qs (b + i) j (f i (page qs (b + i))) no_page inside, m.below j);
        above = λ j hj.
            ground
              (arith, get_or-set qs (b + i) j (f i (page qs (b + i))) no_page inside, m.above j);
        count =
            let kept = block_weight_cong next qs b i (λ k hk.
              ground
                (arith, get_or-set qs (b + i) (b + k) (f i (page qs (b + i))) no_page inside)) in
            let last = get_or-set_self qs (b + i) (f i (page qs (b + i))) no_page inside in
            count_step i next qs here last kept
              (nonfree-set qs (b + i) (f i (page qs (b + i))) inside) m.count;
      } in
      let (ps', run, post) = for_pages-loop r (i + 1) next (omega arith) m' in
      (ps', ground (arith, run, get_elem?-some qs (b + i) no_page inside), post)

  -- The loop over a block that lies in the array runs to its end, and applies `f` to each page of
  -- the block.
  pub for_pages-Mapped : (ps' : List Page) × (for_pages f n 0 b ps ≡ ok ps') × Mapped f b n ps ps'
  for_pages-Mapped = for_pages-loop n 0 ps (omega arith) (record {
    same_length = refl;
    changed = λ k hk. absurd (omega arith);
    below = λ j hj. refl;
    above = λ j hj. refl;
    count = refl;
  })
