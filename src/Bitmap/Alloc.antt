-- ===== src/Bitmap/Alloc.antt =====
-- bitmap_create and bitmap_alloc of kern/lib/bitmap.c.
use linux_like_os.Prelude.Below.{all_below, all_below_sound}
use linux_like_os.Bitmap.Bytes.{bit_at, found_first, alloc_in_word-first}
use linux_like_os.Prelude.{
  ℕ, zero, suc, ◌+◌, ◌*◌, ◌/◌, ◌%◌, ◌^◌, ◌<◌, bit_or, ◌≡◌, refl, ap, ◌≢◌, inl, inr, true, false,
  ◌||◌, Option, none, some, arith, dec_lt, ◌==◌, ltb→lt, ==_iff, Bool-cases, and_true, length,
  get_or, get_elem?-some, ok, enospc, Reply, done, fail,
}
use linux_like_os.Bitmap.{Bitmap, words_for, alloc_in_word, alloc_at, alloc_loop, bitmap_alloc}
use linux_like_os.Bitmap.Bytes.{bit_at, found_first, alloc_in_word-first}
use linux_like_os.Bitmap.Valid.{bit, IsValid, marked, bit-marked, marked-IsValid}

-- What an allocation promises: the first clear bit, now in use and no other bit changed; or
-- ENOSPC, with the bitmap as it was and every bit in use.
abbrev pub Allocated : Bitmap → Reply ℕ × Bitmap → Type 0
Allocated b (done i, b') =
    (i < b.nbits)
    × (bit b i ≡ false)
    × ((j : ℕ) → j < i → bit b j ≡ true)
    × IsValid b'
    × (b'.nbits ≡ b.nbits)
    × ((k : ℕ) → bit b' k ≡ (i == k || bit b k))
Allocated b (fail e, b') = (e ≡ enospc) × (b' ≡ b) × ((j : ℕ) → j < b.nbits → bit b j ≡ true)

-- The first clear bit of a word below 0xff.
word-first :
    (w : ℕ)
    → w < 256
    → w ≢ 0xff
    → (j : ℕ) × (alloc_in_word 8 0 w ≡ some (j, bit_or w (2 ^ j)))
      × (j < 8)
      × (bit_at w j ≡ false)
      × ((k : ℕ) → k < j → bit_at w k ≡ true)
word-first w hw ne = go (alloc_in_word 8 0 w) refl (alloc_in_word-first w hw)
  where
    go :
        (o : Option (ℕ × ℕ))
        → alloc_in_word 8 0 w ≡ o
        → found_first w o ≡ true
        → (j : ℕ) × (alloc_in_word 8 0 w ≡ some (j, bit_or w (2 ^ j)))
          × (j < 8)
          × (bit_at w j ≡ false)
          × ((k : ℕ) → k < j → bit_at w k ≡ true)
    go none e t = absurd (ne ((==_iff _ _).0 t))
    go (some (j, w')) e t =
        let (a, rest) = and_true _ _ t in
        let (a', rest') = and_true _ _ rest in
        let (a'', below) = and_true _ _ rest' in
        (
          j,
          rw e (ap (λ (x : ℕ). some (j, x)) ((==_iff _ _).0 a'')),
          ltb→lt _ _ a,
          ground arith,
          λ k. all_below_sound j (λ k. bit_at w k) k below,
        )

full_table : all_below 8 (λ j. bit_at 0xff j) ≡ true
unfolding all_below
full_table = refl

full_word : (w j : ℕ) → w ≡ 0xff → j < 8 → bit_at w j ≡ true
full_word w j e h = rw e (all_below_sound 8 (λ j. bit_at 0xff j) j full_table h)

-- The search of word `i / 8` found bit `i`.
alloc_at-found :
    {b : Bitmap} (v : IsValid b) (i : ℕ) (h : i / 8 < length b.v)
    → alloc_in_word 8 0 (get_or b.v (i / 8) 0)
      ≡ some (i % 8, bit_or (get_or b.v (i / 8) 0) (2 ^ (i % 8)))
    → i < b.nbits
    → alloc_at b (i / 8) (get_or b.v (i / 8) 0) ≡ ok (done i, marked v i h)
unfolding alloc_at
alloc_at-found {b} v i h found lt =
    let same : i / 8 * 8 + i % 8 ≡ i = omega arith in
    ground (arith, found, same, get_elem?-some b.v (i / 8) 0 h)

module _ {b : Bitmap} (v : IsValid b) where
  in_range_of_clear : (i : ℕ) → i / 8 < length b.v → bit b i ≡ false → i < b.nbits
  in_range_of_clear i h clear = ground (arith, v.leftover i)

  -- Below bit `i` every bit is in use, and the search of its word finds it.
  found-Allocated :
      (i : ℕ)
      → i / 8 < length b.v
      → ((k : ℕ) → k < i → bit b k ≡ true)
      → bit b i ≡ false
      → alloc_in_word 8 0 (get_or b.v (i / 8) 0)
        ≡ some (i % 8, bit_or (get_or b.v (i / 8) 0) (2 ^ (i % 8)))
      → (r : Reply ℕ × Bitmap) × (alloc_at b (i / 8) (get_or b.v (i / 8) 0) ≡ ok r) × Allocated b r
  found-Allocated i h below clear found =
      let lt = in_range_of_clear i h clear in
      (
        (done i, marked v i h),
        alloc_at-found v i h found lt,
        (lt, clear, below, marked-IsValid v i h, refl, bit-marked v i h),
      )

  -- Below word `ix` every bit is in use, and bit `j` is the first clear one of that word.
  word_found :
      (ix j i : ℕ)
      → i / 8 ≡ ix
      → i % 8 ≡ j
      → ix < length b.v
      → ((k : ℕ) → k < ix * 8 → bit b k ≡ true)
      → ((k : ℕ) → k < j → bit_at (get_or b.v ix 0) k ≡ true)
      → bit_at (get_or b.v ix 0) j ≡ false
      → alloc_in_word 8 0 (get_or b.v ix 0) ≡ some (j, bit_or (get_or b.v ix 0) (2 ^ j))
      → (r : Reply ℕ × Bitmap) × (alloc_at b ix (get_or b.v ix 0) ≡ ok r) × Allocated b r
  word_found ix j i word place h below first clear found =
      rw (← word)
        (found-Allocated i (rw word h) earlier (rw (word, place) clear) (rw (word, place) found))
    where
      earlier : (k : ℕ) → k < i → bit b k ≡ true
      earlier k hk = elim (dec_lt k (ix * 8)) [
        | yes p ↦ below k p
        | no p ↦ let same : k / 8 ≡ ix = omega arith in rw same (first (k % 8) (omega arith))
      ]

  alloc_at-Allocated :
      (ix : ℕ)
      → ix < length b.v
      → ((k : ℕ) → k < ix * 8 → bit b k ≡ true)
      → get_or b.v ix 0 ≢ 0xff
      → (r : Reply ℕ × Bitmap) × (alloc_at b ix (get_or b.v ix 0) ≡ ok r) × Allocated b r
  alloc_at-Allocated ix h below ne =
      let (j, found, lt, clear, first) = word-first (get_or b.v ix 0) (v.bytes ix) ne in
      word_found ix j (ix * 8 + j) (omega arith) (omega arith) h below first clear found

  below_full :
      (ix : ℕ)
      → ((k : ℕ) → k < ix * 8 → bit b k ≡ true)
      → get_or b.v ix 0 ≡ 0xff
      → (k : ℕ) → k < (ix + 1) * 8
      → bit b k ≡ true
  below_full ix below full k hk = elim (dec_lt k (ix * 8)) [
    | yes p ↦ below k p
    | no p ↦
        let same : k / 8 ≡ ix = omega arith in
        rw same (full_word (get_or b.v ix 0) (k % 8) full (omega arith))
  ]

  alloc_loop-Allocated :
      (n ix : ℕ)
      → ix + n ≡ length b.v
      → ((k : ℕ) → k < ix * 8 → bit b k ≡ true)
      → (r : Reply ℕ × Bitmap) × (alloc_loop n ix b ≡ ok r) × Allocated b r
  unfolding alloc_loop
  alloc_loop-Allocated zero ix e below =
      ((fail enospc, b), refl, (refl, refl, λ j h. below j (omega (arith, v.words))))
  alloc_loop-Allocated (suc n) ix e below = elim (Bool-cases (get_or b.v ix 0 == 0xff)) [
    | inl full ↦
        let more = below_full ix below ((==_iff _ _).0 full) in
        let (r, run, post) = alloc_loop-Allocated n (ix + 1) (omega arith) more in
        (r, ground (arith, get_elem?-some b.v ix 0), post)
    | inr free ↦
        let (r, run, post) = alloc_at-Allocated ix (omega arith) below (ground arith) in
        (r, ground (arith, get_elem?-some b.v ix 0), post)
  ]

-- `bitmap_alloc` on a valid bitmap never stops the kernel. It takes the first clear bit and
-- changes no other, and the bitmap stays valid; with no clear bit it gives ENOSPC and changes
-- nothing.
pub bitmap_alloc-first :
    (b : Bitmap) → IsValid b → (r : Reply ℕ × Bitmap) × (bitmap_alloc b ≡ ok r) × Allocated b r
unfolding bitmap_alloc
bitmap_alloc-first b v =
    let same : words_for b.nbits ≡ length b.v = omega (arith, v.words, v.small) in
    alloc_loop-Allocated v (words_for b.nbits) 0 (omega arith) (λ k h. absurd (omega arith))
