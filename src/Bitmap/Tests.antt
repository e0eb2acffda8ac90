-- ===== src/Bitmap/Tests.antt =====
-- The theorems of the bitmap at a map of ten bits whose bit 0 is in use.
use linux_like_os.Prelude.{
  ℕ, zero, suc, ◌<◌, ◌≡◌, refl, true, ◌||◌, some, [], ◌∷◌, arith, ltb, get_or, ok, Reply, done,
}
use linux_like_os.Prelude.Below.{all_below, all_below_sound}
use linux_like_os.Bitmap.{Bitmap, bitmap_create, bitmap_alloc}
use linux_like_os.Bitmap.Valid.{bit, IsValid}
use linux_like_os.Bitmap.Alloc.{Allocated, bitmap_alloc-first}

abbrev ten : Bitmap
ten = record { nbits = 10; v = 1 ∷ 0xfc ∷ [] }

ten-bytes : (ix : ℕ) → get_or ten.v ix 0 < 256
ten-bytes zero = omega arith
ten-bytes (suc zero) = omega arith
ten-bytes (suc (suc ix)) = omega arith

ten_table : all_below 16 (λ k. ltb k 10 || bit ten k) ≡ true
unfolding all_below
ten_table = refl

ten-IsValid : IsValid ten
ten-IsValid = record {
  small = omega arith;
  words = refl;
  bytes = ten-bytes;
  leftover = λ k out h. ground (arith, all_below_sound 16 (λ k. ltb k 10 || bit ten k) k ten_table);
}

alloc_ten : bitmap_alloc ten ≡ ok (done 1, record { nbits = 10; v = 3 ∷ 0xfc ∷ [] })
unfolding bitmap_alloc
alloc_ten = refl

create_ten : bitmap_create true true 10 ≡ ok (some (record { nbits = 10; v = 0 ∷ 0xfc ∷ [] }))
unfolding bitmap_create
create_ten = refl

bitmap_alloc-first_example : (r : Reply ℕ × Bitmap) × (bitmap_alloc ten ≡ ok r) × Allocated ten r
bitmap_alloc-first_example = bitmap_alloc-first ten ten-IsValid
