-- ===== src/Coremap/Search.antt =====
-- The search of allocate_kernel_pages is first fit.
use linux_like_os.Prelude.{
  ℕ, zero, suc, ◌+◌, ◌-◌, ◌*◌, ◌≤◌, ◌<◌, ◌≡◌, refl, subst, ◌⊎◌, inl, inr, true, false, List, arith,
  dec_lt, ℕ_discrete, Bool-cases, length, get_elem?-some, ok,
}
use linux_like_os.Coremap.{page_size, find_block}
use linux_like_os.Coremap.Pages.{Page, is_free, no_page, page}

-- The `n` pages from `b` on are free.
abbrev pub FreeRun : List Page → ℕ → ℕ → Type 0
FreeRun ps b n = (k : ℕ) → k < n → is_free (page ps (b + k)).state ≡ true

-- What the search promises: no block of `n` free pages between `start` and `stop`, and the address
-- 0; or the address of the first such block.
abbrev pub FirstFit : List Page → (n start stop : ℕ) → ℕ → Type 0
FirstFit ps n start stop addr =
    ((addr ≡ 0) × ((b : ℕ) → start ≤ b → b + n ≤ stop → ¬ FreeRun ps b n))
    ⊎ ((b : ℕ) × (addr ≡ b * page_size)
        × (start ≤ b)
        × (b + n ≤ stop)
        × FreeRun ps b n
        × ((b' : ℕ) → start ≤ b' → b' < b → ¬ FreeRun ps b' n))

module _ (ps : List Page) (n start : ℕ) (some_pages : 0 < n) where
  -- Just before page `i` there are `k` free pages, and no block of `n` starts before these.
  pub record Scanned (i k : ℕ) : Type 0 where
    pub low : start + k ≤ i
    pub short : k < n
    pub tail_free : (j : ℕ) → j < i → i ≤ j + k → is_free (page ps j).state ≡ true
    pub none_before : (b : ℕ) → start ≤ b → b + k < i → ¬ FreeRun ps b n

  tail_step :
      (i k : ℕ)
      → Scanned i k
      → is_free (page ps i).state ≡ true
      → (j : ℕ) → j < i + 1
      → i ≤ j + k
      → is_free (page ps j).state ≡ true
  tail_step i k s fr j hj near = elim (ℕ_discrete j i) [
    | yes same ↦ rw same fr
    | no before ↦ s.tail_free j (omega arith) near
  ]

  scan_free :
      (i k : ℕ)
      → Scanned i k
      → is_free (page ps i).state ≡ true
      → k + 1 < n
      → Scanned (i + 1) (k + 1)
  scan_free i k s fr more = record {
    low = omega (arith, s.low);
    short = more;
    tail_free = λ j hj near. tail_step i k s fr j hj (omega arith);
    none_before = λ b hb early. s.none_before b hb (omega arith);
  }

  scan_used : (i k : ℕ) → Scanned i k → is_free (page ps i).state ≡ false → Scanned (i + 1) 0
  scan_used i k s taken = record {
    low = omega (arith, s.low);
    short = some_pages;
    tail_free = λ j hj near. absurd (omega arith);
    none_before = λ b hb early run. elim (dec_lt (b + k) i) [
      | yes early' ↦ s.none_before b hb early' run
      | no late ↦
          let here : b + (i - b) ≡ i = omega arith in
          let fr : is_free (page ps i).state ≡ true =
            rw here at (run (i - b) (omega (arith, s.short))) in
          cc
    ];
  }

  pub find_block-FirstFit :
      (rounds i k : ℕ)
      → Scanned i k
      → i + rounds ≤ length ps
      → (addr : ℕ) × (find_block n rounds i k ps ≡ ok addr) × FirstFit ps n start (i + rounds) addr
  unfolding find_block
  find_block-FirstFit zero i k s inside =
      (0, refl, inl (refl, λ b hb fits run. s.none_before b hb (omega (arith, s.short)) run))
  find_block-FirstFit (suc r) i k s inside =
      let there = get_elem?-some ps i no_page (omega arith) in
      let shift : i + 1 + r ≡ i + suc r = omega arith in
      elim (Bool-cases (is_free (page ps i).state)) [
        | inr taken ↦
            let (addr, run, post) =
              find_block-FirstFit r (i + 1) 0 (scan_used i k s taken) (omega arith) in
            (addr, ground (arith, run, there), subst (λ e. FirstFit ps n start e addr) shift post)
        | inl fr ↦ elim (ℕ_discrete (k + 1) n) [
          | yes full ↦ (
            (i + 1 - n) * page_size,
            ground (arith, there),
            inr (
              i + 1 - n,
              refl,
              omega (arith, s.low),
              omega arith,
              λ j hj. tail_step i k s fr (i + 1 - n + j) (omega arith) (omega arith),
              λ b hb early. s.none_before b hb (omega arith),
            ),
          )
          | no short ↦
              let (addr, run, post) =
                find_block-FirstFit r (i + 1) (k + 1) (scan_free i k s fr (omega (arith, s.short)))
                  (omega arith) in
              (addr, ground (arith, run, there), subst (λ e. FirstFit ps n start e addr) shift post)
        ]
      ]
