-- ===== src/Bitmap.antt =====
-- kern/lib/bitmap.c: a fixed-size array of bits in bytes, for the disk's free map and swap space.
-- A bit is addressed by its byte, `index / 8`, and its place in that byte, `index % 8`.
pub mod Bytes
pub mod Valid
pub mod Alloc
pub mod Mark
pub mod Create
mod Tests
use linux_like_os.Prelude.{
  ℕ, zero, suc, ◌+◌, ◌-◌, ◌*◌, ◌/◌, ◌%◌, ◌^◌, bit_and, bit_or, Bool, not, ◌&&◌, Option, none, some,
  List, ltb, ◌==◌, if◌then◌else◌, replicate, Run, ok, panic, ◌>>=◌, ◌>>◌, kassert, fetch, store,
  enospc, Reply, done, fail,
}

pub record Bitmap : Type 0 where
  pub nbits : ℕ
  pub v : List ℕ

abbrev bits_per_word : ℕ
bits_per_word = 8

abbrev word_allbits : ℕ
word_allbits = 0xff

-- `DIVROUNDUP(nbits, BITS_PER_WORD)` in `unsigned`
abbrev pub words_for : ℕ → ℕ
words_for nbits = ((nbits + 7) % 2 ^ 32) / 8

-- for (j = overbits; j < 8; j++) v[ix] |= 1 << j, with the rounds left
unfoldable pub set_from : ℕ → ℕ → ℕ → ℕ
set_from zero j w = w
set_from (suc n) j w = set_from n (j + 1) (bit_or w (2 ^ j))

-- The leftover bits of the last word are marked in use.
unfoldable pub mark_leftover : ℕ → ℕ → List ℕ → Run (List ℕ)
mark_leftover nbits words v =
    if ltb (nbits / 8) words
    then (do
      let ix = words - 1
      let overbits = nbits - ix * 8
      kassert (nbits / 8 == words - 1)
      kassert (ltb 0 overbits && ltb overbits 8)
      w ← fetch v ix
      store v ix (set_from (8 - overbits) overbits w))
    else ok v

-- The two arguments say whether each `kmalloc` succeeds; `none` is the NULL result.
unfoldable pub bitmap_create : (got_struct got_words : Bool) → ℕ → Run (Option Bitmap)
unfolding mark_leftover set_from
bitmap_create got_struct got_words nbits =
    if not got_struct then ok none else if not got_words then ok none else (do
      v ← mark_leftover nbits (words_for nbits) (replicate (words_for nbits) 0)
      ok (some (record { nbits = nbits; v = v })))

-- The inner loop of `bitmap_alloc` over one word: the offset of a clear bit and the new word.
unfoldable pub alloc_in_word : ℕ → ℕ → ℕ → Option (ℕ × ℕ)
alloc_in_word zero offset w = none
alloc_in_word (suc n) offset w =
    let rest = alloc_in_word n (offset + 1) w in
    if bit_and w (2 ^ offset) == 0 then some (offset, bit_or w (2 ^ offset)) else rest

-- The word that has a clear bit: the `KASSERT(0)` behind the inner loop is the `none` case.
unfoldable pub alloc_at : Bitmap → ℕ → ℕ → Run (Reply ℕ × Bitmap)
alloc_at b ix w = elim (alloc_in_word 8 0 w) [
  | none ↦ panic
  | some (offset, w') ↦ do
    v ← store b.v ix w'
    let index = ix * 8 + offset
    kassert (ltb index b.nbits)
    ok (done index, record b { v = v })
]

-- The outer loop, with the rounds left.
unfoldable pub alloc_loop : ℕ → ℕ → Bitmap → Run (Reply ℕ × Bitmap)
alloc_loop zero ix b = ok (fail enospc, b)
alloc_loop (suc n) ix b =
    let rest = alloc_loop n (ix + 1) b in
    do w ← fetch b.v ix; if w == 0xff then rest else alloc_at b ix w

unfoldable pub bitmap_alloc : Bitmap → Run (Reply ℕ × Bitmap)
unfolding alloc_loop alloc_at alloc_in_word
bitmap_alloc b = alloc_loop (words_for b.nbits) 0 b

-- `bitmap_translate`: the word and the mask of a bit
abbrev pub bitmap_translate : ℕ → ℕ × ℕ
bitmap_translate bitno = (bitno / 8, 2 ^ (bitno % 8))

unfoldable pub bitmap_mark : Bitmap → ℕ → Run Bitmap
bitmap_mark b index = do
  kassert (ltb index b.nbits)
  let (ix, mask) = bitmap_translate index
  w ← fetch b.v ix
  kassert (bit_and w mask == 0)
  v ← store b.v ix (bit_or w mask)
  ok (record b { v = v })

-- `~mask` keeps the other seven bits of the byte.
unfoldable pub bitmap_unmark : Bitmap → ℕ → Run Bitmap
bitmap_unmark b index = do
  kassert (ltb index b.nbits)
  let (ix, mask) = bitmap_translate index
  w ← fetch b.v ix
  kassert (not (bit_and w mask == 0))
  v ← store b.v ix (bit_and w (0xff - mask))
  ok (record b { v = v })

unfoldable pub bitmap_isset : Bitmap → ℕ → Run ℕ
bitmap_isset b index = do
  let (ix, mask) = bitmap_translate index
  w ← fetch b.v ix
  ok (bit_and w mask)
