-- ===== src/Bitmap/Valid.antt =====
-- The state of a bitmap as its client sees it, and the invariant of its representation.
use linux_like_os.Prelude.{
  ℕ, ◌+◌, ◌-◌, ◌/◌, ◌%◌, ◌^◌, ◌≤◌, ◌<◌, bit_and, bit_or, ◌≡◌, ◌∙◌, Bool, true, not, ◌&&◌, ◌||◌,
  arith, ◌==◌, if◌then◌else◌, length, get_or, set, length-set, get_or-set,
}
use linux_like_os.Bitmap.{Bitmap}
use linux_like_os.Bitmap.Bytes.{bit_at, bit_at-bit_or, bit_at-bit_and, bit_or-lt, bit_and-lt}

-- Bit `i` is in use.
abbrev pub bit : Bitmap → ℕ → Bool
bit b i = bit_at (get_or b.v (i / 8) 0) (i % 8)

-- The words hold `nbits` bits, each word is a byte, and the bits beyond `nbits` are in use.
pub record IsValid (b : Bitmap) : Type 0 where
  pub small : b.nbits + 7 < 2 ^ 32
  pub words : length b.v ≡ (b.nbits + 7) / 8
  pub bytes : (ix : ℕ) → get_or b.v ix 0 < 256
  pub leftover : (i : ℕ) → b.nbits ≤ i → i / 8 < length b.v → bit b i ≡ true

-- Writing one word changes the bits of that word only.
pub bit-set :
    (b : Bitmap) (ix w i : ℕ)
    → ix < length b.v
    → bit (record b { v = set b.v ix w }) i ≡ (if ix == i / 8 then bit_at w (i % 8) else bit b i)
bit-set b ix w i h = rw (get_or-set b.v ix (i / 8) w 0 h) (ground arith)

module _ {b : Bitmap} (v : IsValid b) (ix w : ℕ) (h : ix < length b.v) (hw : w < 256) where
  pub bytes-set : (j : ℕ) → get_or (set b.v ix w) j 0 < 256
  bytes-set j = rw (get_or-set b.v ix j w 0 h) (ground (arith, v.bytes j))

-- `1 << offset` into a valid bitmap keeps it valid and sets one bit.
module _ {b : Bitmap} (v : IsValid b) (i : ℕ) (h : i / 8 < length b.v) where
  abbrev pub marked : Bitmap
  marked = record b { v = set b.v (i / 8) (bit_or (get_or b.v (i / 8) 0) (2 ^ (i % 8))) }

  pub bit-marked : (k : ℕ) → bit marked k ≡ (i == k || bit b k)
  bit-marked k = ground (
    arith,
    bit-set b (i / 8) (bit_or (get_or b.v (i / 8) 0) (2 ^ (i % 8))) k h,
    bit_at-bit_or (get_or b.v (i / 8) 0) (i % 8) (v.bytes (i / 8)) (omega arith) (k % 8)
        (omega arith),
  )

  pub marked-IsValid : IsValid marked
  marked-IsValid = record {
    small = v.small;
    words = length-set b.v (i / 8) _ ∙ v.words;
    bytes =
        bytes-set v (i / 8) _ h
          (bit_or-lt (get_or b.v (i / 8) 0) (i % 8) (v.bytes (i / 8)) (omega arith));
    leftover = λ k out inside.
        let inside' : k / 8 < length b.v =
          omega (arith, length-set b.v (i / 8) (bit_or (get_or b.v (i / 8) 0) (2 ^ (i % 8)))) in
        ground (arith, bit-marked k, v.leftover k out inside');
  }

  abbrev pub unmarked : Bitmap
  unmarked = record b { v = set b.v (i / 8) (bit_and (get_or b.v (i / 8) 0) (0xff - 2 ^ (i % 8))) }

  pub bit-unmarked : (k : ℕ) → bit unmarked k ≡ (not (i == k) && bit b k)
  bit-unmarked k = ground (
    arith,
    bit-set b (i / 8) (bit_and (get_or b.v (i / 8) 0) (0xff - 2 ^ (i % 8))) k h,
    bit_at-bit_and (get_or b.v (i / 8) 0) (i % 8) (v.bytes (i / 8)) (omega arith) (k % 8)
        (omega arith),
  )

  pub unmarked-IsValid : i < b.nbits → IsValid unmarked
  unmarked-IsValid lt = record {
    small = v.small;
    words = length-set b.v (i / 8) _ ∙ v.words;
    bytes =
        bytes-set v (i / 8) _ h
          (bit_and-lt (get_or b.v (i / 8) 0) (i % 8) (v.bytes (i / 8)) (omega arith));
    leftover = λ k out inside.
        let inside' : k / 8 < length b.v =
          omega
            (arith, length-set b.v (i / 8) (bit_and (get_or b.v (i / 8) 0) (0xff - 2 ^ (i % 8)))) in
        ground (arith, bit-unmarked k, v.leftover k out inside');
  }
