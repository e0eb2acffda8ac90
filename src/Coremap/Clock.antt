-- ===== src/Coremap/Clock.antt =====
-- The choice of a page to evict, at the start of evict_page.
use linux_like_os.Coremap.Valid.{IsValid}
use linux_like_os.Prelude.{
  ℕ, ◌+◌, ◌-◌, ◌*◌, ◌/◌, ◌%◌, ◌<◌, ◌≡◌, refl, sym, ap, ◌∙◌, subst, ◌≢◌, ◌⊎◌, inl, inr, Bool, true,
  false, some, arith, dec_lt, leb, if◌then◌else◌, length, set, length-set, get_or-set,
  get_elem?-some, get_or-set_self, ok,
}
use linux_like_os.Coremap.Sweep.{strip, Aged, next_hand, clock_loop-Stopped, clock_idle}
use linux_like_os.Coremap.{page_size, Coremap, pick_victim}
use linux_like_os.Coremap.Pages.{in_eviction, Page, is_used, no_page, page}

start_way :
    (hand total u : ℕ)
    → hand < total
    → (hand + (if leb hand u then u - hand else u + total - hand) ≡ u)
      ⊎ (hand + (if leb hand u then u - hand else u + total - hand) ≡ u + total)
start_way hand total u h = elim (dec_lt u hand) [
  | yes behind ↦ inr (ground arith)
  | no ahead ↦ inl (ground arith)
]

-- The page at `b` is being evicted, and else only reference bits and the hand changed.
pub record Picked (c : Coremap) (b : ℕ) (c' : Coremap) : Type 0 where
  pub inside : b < length c.pages
  pub was_used : is_used (page c.pages b).state ≡ true
  pub victim : strip (page c'.pages b) ≡ record (strip (page c.pages b)) { state = in_eviction }
  pub others : (j : ℕ) → j ≢ b → strip (page c'.pages j) ≡ strip (page c.pages j)
  pub exact : page c'.pages b ≡ record (page c.pages b) { state = in_eviction; ref_bit = false }
  pub aged : (j : ℕ) → j ≢ b → Aged (page c.pages j) (page c'.pages j)
  pub second_chance :
      (j : ℕ)
      → j < c.memory_end / page_size
      → is_used (page c.pages j).state ≡ true
      → (page c.pages j).ref_bit ≡ false
      → (page c.pages b).ref_bit ≡ false
  pub same_length : length c'.pages ≡ length c.pages
  pub hand : c'.eviction_pointer < c.memory_end / page_size
  pub rest : c' ≡ record c { pages = c'.pages; eviction_pointer = c'.eviction_pointer }

pub pick_victim-Picked :
    (c : Coremap) (u : ℕ)
    → IsValid c
    → c.eviction_pointer < c.memory_end / page_size
    → u < c.memory_end / page_size
    → is_used (page c.pages u).state ≡ true
    → (b : ℕ) × (c' : Coremap) × (pick_victim c ≡ ok (some (b, c'))) × Picked c b c'
unfolding pick_victim
pick_victim-Picked c u v hand_in hu busy =
    let total = c.memory_end / page_size in
    let d : ℕ =
      if leb c.eviction_pointer u then u - c.eviction_pointer else u + total - c.eviction_pointer in
    let (b, ps, run, s) =
      clock_loop-Stopped (2 * total + 1) total c.eviction_pointer d u c.pages v.covers hand_in hu
        (ground arith) (start_way c.eviction_pointer total u hand_in) busy (ground arith) in
    let p = page ps b in
    let h : b < length ps = omega (arith, s.inside, s.same_length) in
    (
      b,
      record c {
        pages = set ps b (record p { state = in_eviction });
        eviction_pointer = (b + 1) % total;
      },
      ground (arith, run, get_elem?-some ps b no_page h, s.victim_used),
      record {
        inside = s.inside;
        was_used = sym (ap (λ (q : Page). is_used q.state) (s.kept b)) ∙ s.victim_used;
        victim =
            ap strip (get_or-set_self ps b (record p { state = in_eviction }) no_page h)
            ∙ ap (λ (q : Page). record q { state = in_eviction }) (s.kept b);
        others = λ j ne.
            ground
              (arith, get_or-set ps b j (record p { state = in_eviction }) no_page h, s.kept j);
        exact =
            get_or-set_self ps b (record p { state = in_eviction }) no_page h
            ∙ (sym (
                  ap (λ (r : Bool). record p { state = in_eviction; ref_bit = r })
                    (sym s.victim_idle))
                ∙ ap (λ (q : Page). record q { state = in_eviction }) (s.kept b));
        aged = λ j ne.
            subst (Aged (page c.pages j))
              (sym (ground (arith, get_or-set ps b j (record p { state = in_eviction }) no_page h)))
              (s.aged j);
        second_chance = λ j lt used' idle.
            (clock_idle (2 * total + 1) total c.eviction_pointer
              (if leb c.eviction_pointer j
                then j - c.eviction_pointer
                else j + total - c.eviction_pointer)
              j c.pages b ps v.covers hand_in lt (ground arith)
              (start_way c.eviction_pointer total j hand_in) used' idle run).3;
        same_length = length-set ps b (record p { state = in_eviction }) ∙ s.same_length;
        hand = ground (arith, next_hand b total (omega (arith, s.inside, v.covers)));
        rest = refl;
      },
    )

-- `evict_page` finds a page to evict where some page is used by an address space: the clock stops
-- within two turns. The page it picks was used and is now being evicted, with its
-- reference bit clear; it was not referenced if any used page was not. Every other page is as
-- before, or is used and lost its reference bit; the hand stays inside the coremap, and nothing
-- else of the coremap changes.
pub pick_victim-finds :
    (c : Coremap) (u : ℕ)
    → IsValid c
    → c.eviction_pointer < c.memory_end / page_size
    → u < c.memory_end / page_size
    → is_used (page c.pages u).state ≡ true
    → (b : ℕ) × (c' : Coremap) × (pick_victim c ≡ ok (some (b, c')))
      × (is_used (page c.pages b).state ≡ true)
      × (page c'.pages b ≡ record (page c.pages b) { state = in_eviction; ref_bit = false })
      × ((j : ℕ)
          → j < c.memory_end / page_size
          → is_used (page c.pages j).state ≡ true
          → (page c.pages j).ref_bit ≡ false
          → (page c.pages b).ref_bit ≡ false)
      × ((j : ℕ) → j ≢ b → Aged (page c.pages j) (page c'.pages j))
      × (c' ≡ record c { pages = c'.pages; eviction_pointer = c'.eviction_pointer })
      × (c'.eviction_pointer < c.memory_end / page_size)
pick_victim-finds c u v hand_in hu busy =
    let (b, c', run, picked) = pick_victim-Picked c u v hand_in hu busy in
    (
      b, c', run, picked.was_used, picked.exact, picked.second_chance, picked.aged, picked.rest,
      picked.hand,
    )
