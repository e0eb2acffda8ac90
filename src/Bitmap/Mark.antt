-- ===== src/Bitmap/Mark.antt =====
-- bitmap_mark, bitmap_unmark and bitmap_isset of kern/lib/bitmap.c.
use linux_like_os.Bitmap.Bytes.{clear_of_set}
use linux_like_os.Prelude.{
  ℕ, ◌/◌, ◌%◌, ◌^◌, ◌<◌, bit_and, bit_or, ◌≡◌, ap, ◌∙◌, true, false, ◌||◌, List, arith, ◌==◌,
  length, get_or, get_elem?-some, set_twice, set-get_or, get_or-set_self, ok, panic,
}
use linux_like_os.Bitmap.{Bitmap, bitmap_mark, bitmap_unmark, bitmap_isset}
use linux_like_os.Bitmap.Valid.{bit, IsValid, marked, bit-marked, marked-IsValid, unmarked}

-- The word of a bit below `nbits` lies in the array.
pub word_in_range : {b : Bitmap} → IsValid b → (i : ℕ) → i < b.nbits → i / 8 < length b.v
word_in_range v i h = omega (arith, v.words)

module _ {b : Bitmap} (v : IsValid b) (i : ℕ) (h : i < b.nbits) where
  pub mark-ok : bit b i ≡ false → bitmap_mark b i ≡ ok (marked v i (word_in_range v i h))
  unfolding bitmap_mark
  mark-ok clear = ground (arith, get_elem?-some b.v (i / 8) 0 (word_in_range v i h))

  pub unmark-ok : bit b i ≡ true → bitmap_unmark b i ≡ ok (unmarked v i (word_in_range v i h))
  unfolding bitmap_unmark
  unmark-ok full = ground (arith, get_elem?-some b.v (i / 8) 0 (word_in_range v i h))

  pub mark-panic : bit b i ≡ true → bitmap_mark b i ≡ panic
  unfolding bitmap_mark
  mark-panic full = ground (arith, get_elem?-some b.v (i / 8) 0 (word_in_range v i h))

  pub unmark-panic : bit b i ≡ false → bitmap_unmark b i ≡ panic
  unfolding bitmap_unmark
  unmark-panic clear = ground (arith, get_elem?-some b.v (i / 8) 0 (word_in_range v i h))

  pub isset-ok : bitmap_isset b i ≡ ok (bit_and (get_or b.v (i / 8) 0) (2 ^ (i % 8)))
  unfolding bitmap_isset
  isset-ok = ground (arith, get_elem?-some b.v (i / 8) 0 (word_in_range v i h))

  marked_back :
      bit b i ≡ false
      → unmarked
          (marked-IsValid v i (word_in_range v i h))
          i
          (word_in_range (marked-IsValid v i (word_in_range v i h)) i h)
        ≡ b
  marked_back clear =
      let inside = word_in_range v i h in
      let w = get_or b.v (i / 8) 0 in
      ap (λ (t : List ℕ). record b { v = t })
        (rw
          (
            get_or-set_self b.v (i / 8) (bit_or w (2 ^ (i % 8))) 0 inside,
            set_twice b.v (i / 8),
            clear_of_set w (i % 8) (v.bytes (i / 8)) (omega arith) clear,
          )
          (set-get_or b.v (i / 8) 0))

-- What `bitmap_mark` promises: on a clear bit of a valid bitmap it sets that bit and no other,
-- keeps the bitmap valid, and `bitmap_unmark` of the same bit gives the old bitmap back; on a set
-- bit the kernel stops.
mark-unmark :
    {b : Bitmap} (i : ℕ)
    → IsValid b
    → i < b.nbits
    → (bit b i ≡ false
        → (b' : Bitmap) × (bitmap_mark b i ≡ ok b')
          × IsValid b'
          × ((k : ℕ) → bit b' k ≡ (i == k || bit b k))
          × (bitmap_unmark b' i ≡ ok b))
      × (bit b i ≡ true → bitmap_mark b i ≡ panic)
mark-unmark {b} i v h =
    let inside = word_in_range v i h in
    (
      λ clear. (
        marked v i inside,
        mark-ok v i h clear,
        marked-IsValid v i inside,
        bit-marked v i inside,
        unmark-ok (marked-IsValid v i inside) i h (ground (arith, bit-marked v i inside i))
            ∙ ap ok (marked_back v i h clear),
      ),
      mark-panic v i h,
    )
