-- ===== src/Array/Tests.antt =====
-- The theorems of the array at arrays of three and of four elements in four places.
use linux_like_os.Prelude.{
  ℕ, ◌+◌, ◌≡◌, refl, ◌⊎◌, Option, none, some, [], ◌∷◌, arith, ok, enomem, done, fail,
}
use linux_like_os.Array.{Array, array_create, array_preallocate, array_add, array_remove}
use linux_like_os.Array.Contents.{contents, IsValid, array_add_lem, array_remove_lem}

abbrev three : Array
three = record { v = 5 ∷ 6 ∷ 7 ∷ 0 ∷ []; num = 3; max = 4 }

three-IsValid : IsValid three
three-IsValid = record { within = omega arith; backed = refl; small = omega arith }

-- It is full, so that the next element needs memory.
abbrev full : Array
full = record { v = 5 ∷ 6 ∷ 7 ∷ 8 ∷ []; num = 4; max = 4 }

full-IsValid : IsValid full
full-IsValid = record { within = omega arith; backed = refl; small = omega arith }

abbrev nines : Option (ℕ → ℕ)
nines = some (λ i. 9)

array_add_lem_example :
    ((nines ≡ none) × (array_add 3 nines full ≡ ok (some (fail enomem, full))))
    ⊎ ((a' : Array) × (array_add 3 nines full ≡ ok (some (done 4, a')))
        × IsValid a'
        × (a'.num ≡ 5)
        × (contents a' ≡ 5 ∷ 6 ∷ 7 ∷ 8 ∷ 3 ∷ []))
array_add_lem_example = array_add_lem 3 nines full full-IsValid (omega arith)

array_remove_lem_example :
    (a' : Array) × (array_remove 1 three ≡ ok a')
    × IsValid a'
    × (a'.num + 1 ≡ 3)
    × (contents a' ≡ 5 ∷ 7 ∷ [])
array_remove_lem_example = array_remove_lem 1 three three-IsValid (omega arith)

-- An empty array grows to four places.
grow :
    array_preallocate 1 nines array_create
    ≡ ok (some (done tt, record { v = 9 ∷ 9 ∷ 9 ∷ 9 ∷ []; num = 0; max = 4 }))
unfolding array_preallocate
grow = refl
