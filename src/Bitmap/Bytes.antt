-- ===== src/Bitmap/Bytes.antt =====
-- Facts about single bits of a byte, by evaluation over all bytes.
use linux_like_os.Prelude.{
  ℕ, ◌-◌, ◌^◌, ◌<◌, bit_and, bit_or, ◌≡◌, refl, Bool, true, false, not, ◌&&◌, ◌||◌, Option, none,
  some, arith, ltb, ◌==◌, eqb, eqb→≡, and_true,
}
use linux_like_os.Prelude.Below.{all_below, all_below_sound}
use linux_like_os.Bitmap.{alloc_in_word}

-- Bit `j` of the word `w` is set.
abbrev pub bit_at : ℕ → ℕ → Bool
bit_at w j = not (bit_and w (2 ^ j) == 0)

-- All three facts about a byte and two places, as one test.
abbrev pair_test : ℕ → ℕ → ℕ → Bool
pair_test w j k =
    eqb (bit_at (bit_or w (2 ^ j)) k) (j == k || bit_at w k)
    && eqb (bit_at (bit_and w (0xff - 2 ^ j)) k) (not (j == k) && bit_at w k)

abbrev one_test : ℕ → ℕ → Bool
one_test w j =
    ltb (bit_or w (2 ^ j)) 256
    && ltb (bit_and w (0xff - 2 ^ j)) 256
    && (bit_at w j || bit_and (bit_or w (2 ^ j)) (0xff - 2 ^ j) == w)
    && (not (bit_at w j) || bit_or (bit_and w (0xff - 2 ^ j)) (2 ^ j) == w)

-- What the search of a word found is the first clear bit.
abbrev pub found_first : ℕ → Option (ℕ × ℕ) → Bool
found_first w none = w == 0xff
found_first w (some (j, w')) =
    ltb j 8 && (not (bit_at w j) && (w' == bit_or w (2 ^ j) && all_below j (λ k. bit_at w k)))

abbrev first_test : ℕ → Bool
first_test w = found_first w (alloc_in_word 8 0 w)

pair_table : all_below 256 (λ w. all_below 8 (λ j. all_below 8 (λ k. pair_test w j k))) ≡ true
unfolding all_below
pair_table = refl

one_table : all_below 256 (λ w. all_below 8 (λ j. one_test w j)) ≡ true
unfolding all_below
one_table = refl

first_table : all_below 256 first_test ≡ true
unfolding all_below alloc_in_word
first_table = refl

pair_facts : (w j k : ℕ) → w < 256 → j < 8 → k < 8 → pair_test w j k ≡ true
pair_facts w j k hw hj hk =
    let row =
      all_below_sound 256 (λ w. all_below 8 (λ j. all_below 8 (λ k. pair_test w j k))) w pair_table
        hw in
    let col = all_below_sound 8 (λ j. all_below 8 (λ k. pair_test w j k)) j row hj in
    all_below_sound 8 (λ k. pair_test w j k) k col hk

one_facts : (w j : ℕ) → w < 256 → j < 8 → one_test w j ≡ true
one_facts w j hw hj =
    let row = all_below_sound 256 (λ w. all_below 8 (λ j. one_test w j)) w one_table hw in
    all_below_sound 8 (λ j. one_test w j) j row hj

module _ (w j : ℕ) (hw : w < 256) (hj : j < 8) where
  pub bit_at-bit_or : (k : ℕ) → k < 8 → bit_at (bit_or w (2 ^ j)) k ≡ (j == k || bit_at w k)
  bit_at-bit_or k hk = eqb→≡ _ _ (and_true _ _ (pair_facts w j k hw hj hk)).0

  pub bit_at-bit_and :
      (k : ℕ) → k < 8 → bit_at (bit_and w (0xff - 2 ^ j)) k ≡ (not (j == k) && bit_at w k)
  bit_at-bit_and k hk = eqb→≡ _ _ (and_true _ _ (pair_facts w j k hw hj hk)).1

  pub bit_or-lt : bit_or w (2 ^ j) < 256
  bit_or-lt = ground (arith, one_facts w j hw hj)

  pub bit_and-lt : bit_and w (0xff - 2 ^ j) < 256
  bit_and-lt = ground (arith, one_facts w j hw hj)

  -- Clearing a bit that was just set, and setting one that was just cleared.
  pub clear_of_set : bit_at w j ≡ false → bit_and (bit_or w (2 ^ j)) (0xff - 2 ^ j) ≡ w
  clear_of_set clear = ground (arith, one_facts w j hw hj)

  pub set_of_clear : bit_at w j ≡ true → bit_or (bit_and w (0xff - 2 ^ j)) (2 ^ j) ≡ w
  set_of_clear full = ground (arith, one_facts w j hw hj)

-- A word other than 0xff has a clear bit, and `alloc_in_word` takes the first.
pub alloc_in_word-first : (w : ℕ) → w < 256 → found_first w (alloc_in_word 8 0 w) ≡ true
alloc_in_word-first w hw = all_below_sound 256 first_test w first_table hw
