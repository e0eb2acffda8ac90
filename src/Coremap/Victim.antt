-- ===== src/Coremap/Victim.antt =====
-- The coremap stays valid when a victim is picked.
use linux_like_os.Prelude.{
  ℕ, suc, ◌+◌, ◌≡◌, refl, ap, ◌∙◌, List, [], ◌∷◌, arith, ℕ_discrete, length,
}
use linux_like_os.Coremap.{Coremap}
use linux_like_os.Coremap.Pages.{Page, is_free, page}
use linux_like_os.Coremap.Valid.{weight, nonfree, IsValid}
use linux_like_os.Coremap.Clock.{Picked}

nonfree-same :
    (ps qs : List Page)
    → length qs ≡ length ps
    → ((j : ℕ) → weight (page qs j) ≡ weight (page ps j))
    → nonfree qs ≡ nonfree ps
unfolding nonfree
nonfree-same [] [] same alike = refl
nonfree-same [] (q ∷ qs) same alike = absurd (omega (arith, same))
nonfree-same (p ∷ ps) [] same alike = absurd (omega (arith, same))
nonfree-same (p ∷ ps) (q ∷ qs) same alike =
    omega (arith, alike 0, nonfree-same ps qs (omega (arith, same)) (λ j. alike (suc j)))

-- What the invariant reads of a page.
pub Picked-alike :
    {c c' : Coremap} {b : ℕ}
    → Picked c b c'
    → (j : ℕ)
    → (is_free (page c'.pages j).state ≡ is_free (page c.pages j).state)
      × ((page c'.pages j).chunk_size ≡ (page c.pages j).chunk_size)
Picked-alike {c} {c'} {b} picked j = elim (ℕ_discrete j b) [
  | no ne ↦ (
    ap (λ (p : Page). is_free p.state) (picked.others j ne),
    ap (λ (p : Page). p.chunk_size) (picked.others j ne),
  )
  | yes here ↦
      let evicting = ap (λ (p : Page). is_free p.state) picked.victim in
      rw here
        (ground (arith, evicting, picked.was_used), ap (λ (p : Page). p.chunk_size) picked.victim)
]

pub Picked-IsValid : {c c' : Coremap} {b : ℕ} → Picked c b c' → IsValid c → IsValid c'
Picked-IsValid {c} {c'} {b} picked v =
    let alike = Picked-alike picked in
    let end_same = ap (λ (d : Coremap). d.memory_end) picked.rest in
    let start_same = ap (λ (d : Coremap). d.memory_start) picked.rest in
    let count_same = ap (λ (d : Coremap). d.allocated) picked.rest in
    let weights =
      nonfree-same c.pages c'.pages picked.same_length (λ j. ground (arith, (alike j).0)) in
    record {
      covers = omega (arith, picked.same_length, end_same, v.covers);
      addressable = omega (arith, end_same, v.addressable);
      above_zero = omega (arith, start_same, v.above_zero);
      inside = omega (arith, start_same, end_same, v.inside);
      blocks = λ i lt.
          let block = v.blocks i (omega (arith, picked.same_length)) in
          rw (alike i).1 (record {
            fits = omega (arith, picked.same_length, block.fits);
            in_use = λ k hk. (alike (i + k)).0 ∙ block.in_use k hk;
            inner = λ k pos_k hk. (alike (i + k)).1 ∙ block.inner k pos_k hk;
          });
      accounted = rw (weights, count_same, start_same) v.accounted;
    }
