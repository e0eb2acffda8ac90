-- ===== src/Coremap/Sweep.antt =====
-- The loop of the clock in evict_page.
use native.Mathlib.Nat.{mod-eq_of_lt, mod_self}
use linux_like_os.Prelude.{
  ℕ, zero, suc, ◌+◌, ◌-◌, ◌%◌, ◌≤◌, ◌<◌, ◌≡◌, refl, ap, ◌∙◌, subst, ◌≢◌, ◌⊎◌, inl, inr, true, false,
  not, ◌&&◌, some, List, arith, ℕ_discrete, ◌==◌, if◌then◌else◌, Bool-cases, length, set,
  length-set, get_or-set, get_elem?-some, ok,
}
use linux_like_os.Coremap.{clock_loop}
use linux_like_os.Coremap.Pages.{Page, is_used, no_page, page}

-- A page but for its reference bit.
abbrev pub strip : Page → Page
strip p = record p { ref_bit = false }

-- A page is as before, or it is used and its reference bit was cleared.
abbrev pub Aged : Page → Page → Type 0
Aged p p' = (p' ≡ p) ⊎ ((is_used p.state ≡ true) × (p' ≡ strip p))

-- The clock stopped at a used page that was not referenced, and cleared reference bits at most.
pub record Stopped (ps : List Page) (hand : ℕ) (ps' : List Page) : Type 0 where
  pub inside : hand < length ps
  pub same_length : length ps' ≡ length ps
  pub victim_used : is_used (page ps' hand).state ≡ true
  pub victim_idle : (page ps' hand).ref_bit ≡ false
  pub kept : (j : ℕ) → strip (page ps' j) ≡ strip (page ps j)
  pub aged : (j : ℕ) → Aged (page ps j) (page ps' j)

pub next_hand :
    (hand total : ℕ)
    → hand < total
    → (hand + 1) % total ≡ (if hand + 1 == total then 0 else hand + 1)
next_hand hand total h = elim (ℕ_discrete (hand + 1) total) [
  | yes e ↦ rw (e, mod_self) (ground arith)
  | no ne ↦ ground (arith, mod-eq_of_lt {n = hand + 1} {m = total} (omega arith))
]

-- The array after the hand passed page `hand`.
abbrev passed : List Page → ℕ → List Page
passed ps hand = if is_used (page ps hand).state then set ps hand (strip (page ps hand)) else ps

module _ (ps : List Page) (hand : ℕ) (h : hand < length ps) where
  length-passed : length (passed ps hand) ≡ length ps
  length-passed = ground (arith, length-set ps hand (strip (page ps hand)))

  passed_kept : (j : ℕ) → strip (page (passed ps hand) j) ≡ strip (page ps j)
  passed_kept j = ground (arith, get_or-set ps hand j (strip (page ps hand)) no_page h)

  passed-Aged : (j : ℕ) → Aged (page ps j) (page (passed ps hand) j)
  passed-Aged j = elim (Bool-cases (hand == j && is_used (page ps j).state)) [
    | inl here ↦ inr (
      ground (arith, here),
      ground (arith, get_or-set ps hand j (strip (page ps hand)) no_page h, here),
    )
    | inr away ↦ inl (ground (arith, get_or-set ps hand j (strip (page ps hand)) no_page h, away))
  ]

  passed_ref :
      (u : ℕ)
      → (page (passed ps hand) u).ref_bit
        ≡ (if hand == u && is_used (page ps u).state then false else (page ps u).ref_bit)
  passed_ref u = ground (arith, get_or-set ps hand u (strip (page ps hand)) no_page h)

Stopped-passed :
    (ps : List Page) (hand : ℕ)
    → hand < length ps
    → (hand' : ℕ) (ps' : List Page) → Stopped (passed ps hand) hand' ps'
    → Stopped ps hand' ps'
Stopped-passed ps hand h hand' ps' s = record {
  inside = omega (arith, s.inside, length-passed ps hand h);
  same_length = s.same_length ∙ length-passed ps hand h;
  victim_used = s.victim_used;
  victim_idle = s.victim_idle;
  kept = λ j. s.kept j ∙ passed_kept ps hand h j;
  aged = λ j. elim (passed-Aged ps hand h j) [
    | inl same ↦ subst (λ p. Aged p (page ps' j)) same (s.aged j)
    | inr (busy, cleared) ↦ inr (
      busy,
      elim (s.aged j) [
        | inl same ↦ same ∙ cleared
        | inr (busy', cleared') ↦ cleared' ∙ passed_kept ps hand h j
      ],
    )
  ];
}

-- The way ahead to page `u` after one step.
way_ahead :
    (hand total d u : ℕ)
    → hand < total
    → u < total
    → (hand + d ≡ u) ⊎ (hand + d ≡ u + total)
    → d < total
    → ((hand + 1) % total + (if hand == u then total - 1 else d - 1) ≡ u)
      ⊎ ((hand + 1) % total + (if hand == u then total - 1 else d - 1) ≡ u + total)
way_ahead hand total d u hh hu way hd = elim (ℕ_discrete (hand + 1) total) [
  | yes last ↦ inl (ground (arith, next_hand hand total hh))
  | no more ↦ elim (ℕ_discrete hand u) [
    | yes here ↦ inr (ground (arith, next_hand hand total hh))
    | no away ↦ elim way [
      | inl ahead ↦ inl (ground (arith, next_hand hand total hh))
      | inr round ↦ inr (ground (arith, next_hand hand total hh))
    ]
  ]
]

-- With a used page `u`, `d` steps ahead of the hand, the clock stops within `d` rounds, or within
-- one turn more if `u` was referenced.
pub clock_loop-Stopped :
    (fuel total hand d u : ℕ) (ps : List Page)
    → length ps ≡ total
    → hand < total
    → u < total
    → d < total
    → (hand + d ≡ u) ⊎ (hand + d ≡ u + total)
    → is_used (page ps u).state ≡ true
    → d + (if (page ps u).ref_bit then total else 0) < fuel
    → (hand' : ℕ) × (ps' : List Page) × (clock_loop fuel total hand ps ≡ ok (some (hand', ps')))
      × Stopped ps hand' ps'
unfolding clock_loop
clock_loop-Stopped zero total hand d u ps len hh hu hd way busy enough = absurd (omega arith)
clock_loop-Stopped (suc fuel) total hand d u ps len hh hu hd way busy enough =
    let h : hand < length ps = omega arith in
    let there = get_elem?-some ps hand no_page h in
    elim (Bool-cases (is_used (page ps hand).state && not (page ps hand).ref_bit)) [
      | inl stop ↦ (
        hand,
        ps,
        ground (arith, there),
        record {
          inside = h;
          same_length = refl;
          victim_used = ground arith;
          victim_idle = ground arith;
          kept = λ j. refl;
          aged = λ j. inl refl;
        },
      )
      | inr go ↦
          let d' : ℕ = if hand == u then total - 1 else d - 1 in
          let (hand', ps', run, s) =
            clock_loop-Stopped fuel total ((hand + 1) % total) d' u (passed ps hand)
              (length-passed ps hand h ∙ len) (ground (arith, next_hand hand total hh)) hu
              (ground arith) (way_ahead hand total d u hh hu way hd)
              (ap (λ (p : Page). is_used p.state) (passed_kept ps hand h u) ∙ busy)
              (ground (arith, passed_ref ps hand h u)) in
          (hand', ps', ground (arith, there, run), Stopped-passed ps hand h hand' ps' s)
    ]

-- While a used page `u` that was not referenced lies `d` steps ahead, the clock does not go past it,
-- and the page at which it stops was not referenced either.
pub clock_idle :
    (fuel total hand d u : ℕ) (ps : List Page) (hand' : ℕ) (ps' : List Page)
    → length ps ≡ total
    → hand < total
    → u < total
    → d < total
    → (hand + d ≡ u) ⊎ (hand + d ≡ u + total)
    → is_used (page ps u).state ≡ true
    → (page ps u).ref_bit ≡ false
    → clock_loop fuel total hand ps ≡ ok (some (hand', ps'))
    → (k : ℕ) × (k ≤ d)
      × ((hand + k ≡ hand') ⊎ (hand + k ≡ hand' + total))
      × ((page ps hand').ref_bit ≡ false)
unfolding clock_loop
clock_idle zero total hand d u ps hand' ps' len hh hu hd way busy idle run =
    absurd (ground (arith, run))
clock_idle (suc fuel) total hand d u ps hand' ps' len hh hu hd way busy idle run =
    let h : hand < length ps = omega arith in
    let there = get_elem?-some ps hand no_page h in
    elim (Bool-cases (is_used (page ps hand).state && not (page ps hand).ref_bit)) [
      | inl stop ↦
          let same : hand ≡ hand' = ground (arith, run, there, stop) in
          (
            0,
            omega arith,
            inl (omega (arith, same)),
            subst (λ i. (page ps i).ref_bit ≡ false) same (ground (arith, stop)),
          )
      | inr go ↦
          let apart : hand ≢ u =
            λ x. absurd (ground (arith, go, busy, idle, ap (λ i. page ps i) x)) in
          let on : clock_loop fuel total ((hand + 1) % total) (passed ps hand)
              ≡ ok (some (hand', ps')) =
            ground (arith, run, there, go) in
          let step = next_hand hand total hh in
          let ahead : ((hand + 1) % total + (d - 1) ≡ u)
              ⊎ ((hand + 1) % total + (d - 1) ≡ u + total) =
            ground (arith, step, way, apart) in
          let (k, near, at, rest) =
            clock_idle fuel total ((hand + 1) % total) (d - 1) u (passed ps hand) hand' ps'
              (length-passed ps hand h ∙ len) (ground (arith, step)) hu (omega arith) ahead
              (ap (λ (p : Page). is_used p.state) (passed_kept ps hand h u) ∙ busy)
              (ground (arith, passed_ref ps hand h u, idle)) on in
          let moved : 0 < d = ground (arith, way, apart) in
          let far : ((hand + (k + 1) ≡ hand') ⊎ (hand + (k + 1) ≡ hand' + total)) =
            ground (arith, step, at) in
          let off : hand ≢ hand' = λ x. absurd (ground (arith, far, near, hd, moved, x)) in
          (
            k + 1,
            omega (arith, near, moved),
            far,
            ground (arith, passed_ref ps hand h hand', rest, off),
          )
    ]
