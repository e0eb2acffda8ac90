-- ===== src/Bitmap/Create.antt =====
-- bitmap_create of kern/lib/bitmap.c.
use linux_like_os.Prelude.{
  ℕ, ◌+◌, ◌-◌, ◌*◌, ◌/◌, ◌%◌, ◌^◌, ◌<◌, ◌≡◌, refl, ◌≢◌, Bool, true, false, not, ◌&&◌, ◌||◌, some,
  List, arith, ℕ_discrete, ltb, leb, ◌==◌, eqb, eqb→≡, length, get_or, set, replicate,
  length-replicate, length-set, get_or-set, get_elem?-some, get_or-replicate, ok,
}
use linux_like_os.Prelude.Below.{all_below, all_below_sound}
use linux_like_os.Bitmap.{Bitmap, words_for, set_from, mark_leftover, bitmap_create}
use linux_like_os.Bitmap.Bytes.{bit_at}
use linux_like_os.Bitmap.Valid.{bit, IsValid, bit-set}

-- The word that the loop over the leftover bits makes, with `o` bits free.
abbrev last_word : ℕ → ℕ
last_word o = set_from (8 - o) o 0

abbrev last_test : ℕ → Bool
last_test o =
    o == 0 || (ltb (last_word o) 256 && all_below 8 (λ k. eqb (bit_at (last_word o) k) (leb o k)))

last_table : all_below 8 last_test ≡ true
unfolding all_below set_from
last_table = refl

zero_table : all_below 8 (λ k. not (bit_at 0 k)) ≡ true
unfolding all_below
zero_table = refl

last_facts : (o : ℕ) → 0 < o → o < 8 → last_test o ≡ true
last_facts o p h = all_below_sound 8 last_test o last_table h

last_word-lt : (o : ℕ) → 0 < o → o < 8 → last_word o < 256
last_word-lt o p h = ground (arith, last_facts o p h)

bit_at-last_word : (o k : ℕ) → 0 < o → o < 8 → k < 8 → bit_at (last_word o) k ≡ leb o k
bit_at-last_word o k p h hk =
    let row : all_below 8 (λ k. eqb (bit_at (last_word o) k) (leb o k)) ≡ true =
      ground (arith, last_facts o p h) in
    eqb→≡ _ _ (all_below_sound 8 (λ k. eqb (bit_at (last_word o) k) (leb o k)) k row hk)

bit_at-zero : (k : ℕ) → k < 8 → bit_at 0 k ≡ false
bit_at-zero k h = ground (arith, all_below_sound 8 (λ k. not (bit_at 0 k)) k zero_table h)

mark_leftover-partial :
    (n words : ℕ) (v : List ℕ)
    → words ≡ n / 8 + 1
    → 0 < n % 8
    → n / 8 < length v
    → mark_leftover n words v
      ≡ ok (set v (n / 8) (set_from (8 - n % 8) (n % 8) (get_or v (n / 8) 0)))
unfolding mark_leftover
mark_leftover-partial n words v e part h =
    let last : words - 1 ≡ n / 8 = omega arith in
    let over : n - n / 8 * 8 ≡ n % 8 = omega arith in
    rw (last, over) (ground (arith, last, get_elem?-some v (n / 8) 0 h))

module _ (n : ℕ) (small : n + 7 < 2 ^ 32) where
  abbrev zeros : Bitmap
  zeros = record { nbits = n; v = replicate (words_for n) 0 }

  bit-zeros : (k : ℕ) → bit zeros k ≡ false
  bit-zeros k =
      rw (get_or-replicate {A = ℕ} (words_for n) (k / 8) 0) (bit_at-zero (k % 8) (omega arith))

  -- The bitmap that results where the last word is partly used.
  abbrev partial : Bitmap
  partial = record { nbits = n; v = set (replicate (words_for n) 0) (n / 8) (last_word (n % 8)) }

  module _ (part : n % 8 ≢ 0) where
    inside : n / 8 < length zeros.v
    inside = omega (arith, length-replicate {A = ℕ} (words_for n) 0)

    bit-partial : (k : ℕ) → k / 8 < words_for n → bit partial k ≡ leb n k
    bit-partial k hk = ground (
      arith,
      bit-set zeros (n / 8) (last_word (n % 8)) k inside,
      bit-zeros k,
      bit_at-last_word (n % 8) (k % 8) (omega arith) (omega arith) (omega arith),
    )

    partial-IsValid : IsValid partial
    partial-IsValid = record {
      small = small;
      words = omega (
        arith,
        length-set zeros.v (n / 8) (last_word (n % 8)),
        length-replicate {A = ℕ} (words_for n) 0,
      );
      bytes = λ j. ground (
        arith,
        get_or-set zeros.v (n / 8) j (last_word (n % 8)) 0 inside,
        get_or-replicate {A = ℕ} (words_for n) j 0,
        last_word-lt (n % 8) (omega arith) (omega arith),
      );
      leftover = λ k out h.
          let h' : k / 8 < words_for n = omega (
            arith,
            length-set zeros.v (n / 8) (last_word (n % 8)),
            length-replicate {A = ℕ} (words_for n) 0,
          ) in
          ground (arith, bit-partial k h');
    }

    create-partial : bitmap_create true true n ≡ ok (some partial)
    unfolding bitmap_create
    create-partial =
        let loop =
          mark_leftover-partial n (words_for n) zeros.v (omega arith) (omega arith) inside in
        let first = get_or-replicate {A = ℕ} (words_for n) (n / 8) 0 in rw loop (rw first)

  module _ (whole : n % 8 ≡ 0) where
    zeros-IsValid : IsValid zeros
    zeros-IsValid = record {
      small = small;
      words = omega (arith, length-replicate {A = ℕ} (words_for n) 0);
      bytes = λ j. rw (get_or-replicate {A = ℕ} (words_for n) j 0) (omega arith);
      leftover = λ k out h. absurd (omega (arith, length-replicate {A = ℕ} (words_for n) 0));
    }

    create-whole : bitmap_create true true n ≡ ok (some zeros)
    unfolding bitmap_create mark_leftover
    create-whole = ground arith

-- With both allocations and fewer than 2^32 - 7 bits, `bitmap_create` never stops the kernel: it
-- gives a valid bitmap of `n` bits, all clear.
bitmap_create-IsValid :
    (n : ℕ)
    → n + 7 < 2 ^ 32
    → (b : Bitmap) × (bitmap_create true true n ≡ ok (some b))
      × IsValid b
      × (b.nbits ≡ n)
      × ((k : ℕ) → k < n → bit b k ≡ false)
bitmap_create-IsValid n small = elim (ℕ_discrete (n % 8) 0) [
  | yes whole ↦ (
    zeros n small,
    create-whole n small whole,
    zeros-IsValid n small whole,
    refl,
    λ k h. bit-zeros n small k,
  )
  | no part ↦ (
    partial n small,
    create-partial n small part,
    partial-IsValid n small part,
    refl,
    λ k h. ground (arith, bit-partial n small part k (omega arith)),
  )
]
