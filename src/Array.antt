-- ===== src/Array.antt =====
-- kern/lib/array.c and kern/include/array.h: the growable array of pointers.
pub mod Contents
mod Tests
use linux_like_os.Prelude.{
  ℕ, zero, suc, ◌+◌, ◌-◌, ◌*◌, ◌/◌, ◌%◌, ◌^◌, Option, none, some, List, [], ◌∷◌, ◌++◌, ltb, leb,
  ◌==◌, if◌then◌else◌, length, take, drop, Run, ok, ◌>>=◌, ◌>>◌, kassert, fetch, store, enomem,
  Reply, done, fail,
}

-- `struct array`; `v` is the memory that it points to.
pub record Array : Type 0 where
  pub v : List ℕ
  pub num : ℕ
  pub max : ℕ

abbrev pub array_create : Array
array_create = record { v = []; num = 0; max = 0 }

-- `while (num > newmax) newmax = newmax ? newmax*2 : 4;` on fuel; `none` means that it ran out.
unfoldable pub double_loop : (fuel num newmax : ℕ) → Option ℕ
double_loop zero num newmax = if ltb newmax num then none else some newmax
double_loop (suc fuel) num newmax =
    let rest = double_loop fuel num (if newmax == 0 then 4 else newmax * 2 % 2 ^ 32) in
    if ltb newmax num then rest else some newmax

-- Memory of `n` pointers with any contents.
abbrev pub junk_from : (n i : ℕ) → (ℕ → ℕ) → List ℕ
junk_from zero i junk = []
junk_from (suc n) i junk = junk i ∷ junk_from n (i + 1) junk

-- `memory` is what kmalloc returns: no memory, or memory with some contents, of
-- `newmax*sizeof(*a->v)` bytes in 32 bits.
unfoldable pub array_preallocate :
    (num : ℕ) → (memory : Option (ℕ → ℕ)) → Array → Run (Option (Reply (Unit {0}) × Array))
unfolding double_loop
array_preallocate num memory a =
    if ltb a.max num
    then elim (double_loop (num + 2) num a.max) [
      | none ↦ ok none
      | some newmax ↦ elim memory [
        | none ↦ ok (some (fail enomem, a))
        | some junk ↦
            let newptr = junk_from (newmax * 4 % 2 ^ 32 / 4) 0 junk in
            do
              kassert (leb a.num (length newptr))
              ok (
                  some
                    (done tt, record a { v = take a.num a.v ++ drop a.num newptr; max = newmax }))
      ]
    ]
    else ok (some (done tt, a))

unfoldable pub array_setsize :
    (num : ℕ) → (memory : Option (ℕ → ℕ)) → Array → Run (Option (Reply (Unit {0}) × Array))
array_setsize num memory a = do
  grown ← array_preallocate num memory a
  ok (elim grown [
    | none ↦ none
    | some (result, a') ↦
        some (elim result [ fail e ↦ (fail e, a') | done u ↦ (done u, record a' { num = num }) ])
  ])

abbrev pub array_get : Array → ℕ → Run ℕ
array_get a index = do kassert (ltb index a.num); fetch a.v index

-- The index of the new element is the value.
unfoldable pub array_add :
    (val : ℕ) → (memory : Option (ℕ → ℕ)) → Array → Run (Option (Reply ℕ × Array))
unfolding array_setsize
array_add val memory a = do
  let index = a.num
  sized ← array_setsize (index + 1) memory a
  elim sized [
    | none ↦ ok none
    | some (result, a') ↦ elim result [
      | fail e ↦ ok (some (fail e, a'))
      | done u ↦ do v ← store a'.v index val; ok (some (done index, record a' { v = v }))
    ]
  ]

-- `memmove(v + index, v + index+1, n)`
abbrev pub move_down : (v : List ℕ) → (index n : ℕ) → List ℕ
move_down v index n = take index v ++ take n (drop (index + 1) v) ++ drop (index + n) v

unfoldable pub array_remove : (index : ℕ) → Array → Run Array
array_remove index a = do
  kassert (leb a.num a.max)
  kassert (ltb index a.num)
  let num_to_move = a.num - (index + 1)
  ok (record a { v = move_down a.v index num_to_move; num = a.num - 1 })
