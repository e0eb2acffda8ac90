-- ===== src/Coremap/Blocks.antt =====
-- The chunk sizes stay those of blocks when a block is taken and when it is freed.
use linux_like_os.Prelude.{
  ℕ, ◌+◌, ◌-◌, ◌≤◌, ◌<◌, ◌≡◌, false, List, arith, dec_lt, ℕ_discrete, length,
}
use linux_like_os.Coremap.{fix_page}
use linux_like_os.Coremap.Pages.{Page, is_free, free_page, page}
use linux_like_os.Coremap.Valid.{IsBlock}
use linux_like_os.Coremap.Search.{FreeRun}
use linux_like_os.Coremap.Block.{Mapped}

-- A block whose pages are unchanged is still a block.
pub kept-IsBlock :
    (ps ps' : List Page) (b n : ℕ)
    → length ps' ≡ length ps
    → IsBlock ps b n
    → ((k : ℕ) → k < n → page ps' (b + k) ≡ page ps (b + k))
    → IsBlock ps' b n
kept-IsBlock ps ps' b n same block kept = record {
  fits = omega (arith, block.fits);
  in_use = λ k hk. ground (arith, kept k hk, block.in_use k hk);
  inner = λ k pos_k hk. ground (arith, kept k hk, block.inner k pos_k hk);
}

pub empty-IsBlock : (ps : List Page) (b : ℕ) → b < length ps → IsBlock ps b 0
empty-IsBlock ps b h = record {
  fits = omega arith;
  in_use = λ k hk. absurd (omega arith);
  inner = λ k p hk. absurd (omega arith);
}

-- Every page's chunk size is that of a block.
abbrev pub Blocks : List Page → Type 0
Blocks ps = (b : ℕ) → b < length ps → IsBlock ps b (page ps b).chunk_size

-- Where a free run became a kernel block.
module _ (ps ps' : List Page) (b n : ℕ) (run : FreeRun ps b n) (fits : b + n ≤ length ps)
    (m : Mapped (fix_page n) b n ps ps') where
  pub kept_used : (j : ℕ) → is_free (page ps j).state ≡ false → page ps' j ≡ page ps j
  kept_used j taken = elim (dec_lt j b) [
    | yes lo ↦ m.below j lo
    | no h ↦ elim (dec_lt j (b + n)) [
      | no hi ↦ m.above j (omega arith)
      | yes mid ↦
          let here : b + (j - b) ≡ j = omega arith in
          absurd (ground (arith, rw here at (run (j - b) (omega arith))))
    ]
  ]

  pub new-IsBlock : IsBlock ps' b n
  new-IsBlock = record {
    fits = omega (arith, m.same_length);
    in_use = λ k hk. ground (arith, m.changed k hk);
    inner = λ k p hk. ground (arith, m.changed k hk);
  }

  pub alloc-Blocks : Blocks ps → Blocks ps'
  alloc-Blocks bs j h = elim (dec_lt j b) [
    | yes lo ↦ outside (m.below j lo)
    | no h' ↦ elim (dec_lt j (b + n)) [
      | no hi ↦ outside (m.above j (omega arith))
      | yes mid ↦
          let here : b + (j - b) ≡ j = omega arith in
          let now = rw here at (m.changed (j - b) (omega arith)) in
          elim (ℕ_discrete j b) [
            | yes first ↦
                let size : (page ps' j).chunk_size ≡ n = ground (arith, now) in
                rw (size, first) new-IsBlock
            | no later ↦
                let none' : (page ps' j).chunk_size ≡ 0 = ground (arith, now) in
                rw none' (empty-IsBlock ps' j h)
          ]
    ]
  ]
    where
      outside : page ps' j ≡ page ps j → IsBlock ps' j (page ps' j).chunk_size
      outside same =
          let block = bs j (omega (arith, m.same_length)) in
          rw same (
            kept-IsBlock ps ps' j (page ps j).chunk_size m.same_length block
              (λ k hk. kept_used (j + k) (block.in_use k hk)))

-- Where a block of chunk size `n` was freed.
module _ (ps ps' : List Page) (b n : ℕ) (m : Mapped (λ i p. free_page) b n ps ps') where
  pub free-Blocks : b < length ps → n ≡ (page ps b).chunk_size → Blocks ps → Blocks ps'
  free-Blocks hb size bs j h = elim (dec_lt j b) [
    | yes lo ↦
        let block = bs j (omega (arith, m.same_length)) in
        rw (m.below j lo) (
          kept-IsBlock ps ps' j (page ps j).chunk_size m.same_length block (λ k hk.
            elim (dec_lt (j + k) b) [
              | yes before ↦ m.below (j + k) before
              | no reach ↦
                  let here : j + (b - j) ≡ b = omega arith in
                  let zero' : (page ps b).chunk_size ≡ 0 =
                    rw here at (block.inner (b - j) (omega arith) (omega arith)) in
                  m.above (j + k) (omega arith)
            ]))
    | no h' ↦ elim (dec_lt j (b + n)) [
      | no hi ↦
          let block = bs j (omega (arith, m.same_length)) in
          rw (m.above j (omega arith)) (
            kept-IsBlock ps ps' j (page ps j).chunk_size m.same_length block
              (λ k hk. m.above (j + k) (omega arith)))
      | yes mid ↦
          let here : b + (j - b) ≡ j = omega arith in
          let now = rw here at (m.changed (j - b) (omega arith)) in rw now (empty-IsBlock ps' j h)
    ]
  ]
