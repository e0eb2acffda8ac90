-- ===== src/Array/Contents.antt =====
-- What the array holds: the first `num` pointers of its memory.
use linux_like_os.Prelude.{
  ℕ, zero, suc, ◌+◌, ◌-◌, ◌*◌, ◌/◌, ◌%◌, ◌^◌, ◌≤◌, ◌<◌, ◌≡◌, refl, sym, ap, ◌∙◌, subst, ◌⊎◌, inl,
  inr, true, Option, none, some, List, [], ◌∷◌, ◌++◌, arith, dec_lt, leb, lt→ltb, length, set, take,
  drop, length-append, length-set, get_elem?-some, ok, store, enomem, done, fail,
}
use linux_like_os.Array.{
  Array, double_loop, junk_from, array_preallocate, array_add, move_down, array_remove,
}

abbrev pub contents : Array → List ℕ
contents a = take a.num a.v

pub record IsValid (a : Array) : Type 0 where
  pub within : a.num ≤ a.max
  pub backed : length a.v ≡ a.max
  pub small : a.max < 2 ^ 30

-- The doubling stops: it gives a size that is enough and less than twice what was asked.
double_loop_stop : (fuel num newmax : ℕ) → num ≤ newmax → double_loop fuel num newmax ≡ some newmax
unfolding double_loop
double_loop_stop zero num newmax h = ground arith
double_loop_stop (suc fuel) num newmax h = ground arith

double_loop_lem :
    (fuel num newmax : ℕ)
    → newmax < num
    → 0 < newmax
    → num ≤ newmax + fuel
    → num ≤ 2 ^ 29
    → (m : ℕ) × (double_loop fuel num newmax ≡ some m) × (num ≤ m) × (m < 2 * num)
unfolding double_loop
double_loop_lem zero num newmax lt nz enough small = absurd (omega arith)
double_loop_lem (suc fuel) num newmax lt nz enough small =
    let twice : newmax * 2 % 2 ^ 32 ≡ newmax * 2 = omega arith in
    elim (dec_lt (newmax * 2) num) [
      | yes again ↦
          let (m, run, lo, hi) =
            double_loop_lem fuel num (newmax * 2) again (omega arith) (omega arith) small in
          (m, ground (arith, run, twice), lo, hi)
      | no stop ↦ (
        newmax * 2,
        ground (arith, double_loop_stop fuel num (newmax * 2) (omega arith), twice),
        omega arith,
        omega arith,
      )
    ]

from_empty :
    (num : ℕ) {r : Option ℕ}
    → 0 < num
    → double_loop (num + 1) num 4 ≡ r
    → double_loop (num + 2) num 0 ≡ r
unfolding double_loop
from_empty num {r} some_num run =
    let more : num + 2 ≡ suc (num + 1) = omega arith in
    subst (λ f. double_loop f num 0 ≡ r) (sym more) (ground (arith, run))

-- The same from any size, none included.
grown_size :
    (num newmax : ℕ)
    → newmax < num
    → num ≤ 2 ^ 29
    → (m : ℕ) × (double_loop (num + 2) num newmax ≡ some m) × (num ≤ m) × (m < 2 ^ 30)
unfolding double_loop
grown_size num zero lt small = elim (dec_lt 4 num) [
  | yes more ↦
      let (m, run, lo, hi) =
        double_loop_lem (num + 1) num 4 more (omega arith) (omega arith) small in
      (m, from_empty num lt run, lo, omega arith)
  | no stop ↦ (
    4,
    from_empty num lt (double_loop_stop (num + 1) num 4 (omega arith)),
    omega arith,
    omega arith,
  )
]
grown_size num (suc newmax) lt small =
    let (m, run, lo, hi) =
      double_loop_lem (num + 2) num (suc newmax) lt (omega arith) (omega arith) small in
    (m, run, lo, omega arith)

module _ {ℓ} {A : Type ℓ} where
  length-take : (n : ℕ) (xs : List A) → n ≤ length xs → length (take n xs) ≡ n
  length-take zero xs h = refl
  length-take (suc n) [] h = absurd (omega arith)
  length-take (suc n) (x ∷ xs) h = ap suc (length-take n xs (omega arith))

  length-drop : (n : ℕ) (xs : List A) → length (drop n xs) ≡ length xs - n
  length-drop zero xs = omega arith
  length-drop (suc n) [] = omega arith
  length-drop (suc n) (x ∷ xs) = omega (arith, length-drop n xs)

  -- The front of an append is its first part.
  take-append : (n : ℕ) (xs ys : List A) → length xs ≡ n → take n (xs ++ ys) ≡ xs
  take-append zero [] ys h = refl
  take-append zero (x ∷ xs) ys h = absurd (omega arith)
  take-append (suc n) [] ys h = absurd (omega arith)
  take-append (suc n) (x ∷ xs) ys h = ap (λ t. x ∷ t) (take-append n xs ys (omega arith))

  -- Writing behind the front appends to it.
  take-set :
      (n : ℕ) (xs : List A) (a : A)
      → n < length xs
      → take (suc n) (set xs n a) ≡ take n xs ++ a ∷ []
  take-set zero [] a h = absurd (omega arith)
  take-set zero (x ∷ xs) a h = refl
  take-set (suc n) [] a h = absurd (omega arith)
  take-set (suc n) (x ∷ xs) a h = ap (λ t. x ∷ t) (take-set n xs a (omega arith))

length-junk_from : (n i : ℕ) (junk : ℕ → ℕ) → length (junk_from n i junk) ≡ n
length-junk_from zero i junk = refl
length-junk_from (suc n) i junk = ap suc (length-junk_from n (i + 1) junk)

-- How array_preallocate ends: for want of memory with nothing changed, or with room enough.
abbrev Room : ℕ → Option (ℕ → ℕ) → Array → Type 0
Room num memory a =
    ((memory ≡ none) × (array_preallocate num memory a ≡ ok (some (fail enomem, a))))
    ⊎ ((a' : Array) × (array_preallocate num memory a ≡ ok (some (done tt, a')))
        × IsValid a'
        × (num ≤ a'.max)
        × (a'.num ≡ a.num)
        × (contents a' ≡ contents a))

module _ (a : Array) (valid : IsValid a) (num : ℕ) (lt : a.max < num) (small : num ≤ 2 ^ 29)
    (junk : ℕ → ℕ) where
  regrown : Room num (some junk) a
  unfolding array_preallocate
  regrown =
      let (m, run, lo, hi) = grown_size num a.max lt small in
      let fresh = junk_from m 0 junk in
      let len = length-junk_from m 0 junk in
      let fits : leb a.num (length fresh) ≡ true = rw len (ground (arith, valid.within)) in
      let bytes : m * 4 % 2 ^ 32 / 4 ≡ m = omega arith in
      let front = length-take a.num a.v (omega (arith, valid.within, valid.backed)) in
      inr (
        record a { v = take a.num a.v ++ drop a.num fresh; max = m },
        rw (lt→ltb a.max num lt, run, bytes, fits) refl,
        record {
          within = omega (arith, valid.within);
          backed = omega (
            arith,
            length-append (take a.num a.v) (drop a.num fresh),
            front,
            length-drop a.num fresh,
            len,
            valid.within,
          );
          small = hi;
        },
        lo,
        refl,
        take-append a.num (take a.num a.v) (drop a.num fresh) front,
      )

array_preallocate-Room :
    (num : ℕ) (memory : Option (ℕ → ℕ)) (a : Array) → IsValid a → num ≤ 2 ^ 29 → Room num memory a
unfolding array_preallocate
array_preallocate-Room num memory a valid small = elim (dec_lt a.max num) [
  | yes lt ↦ by_memory memory lt
  | no ge ↦ inr (a, ground arith, valid, omega arith, refl, refl)
]
  where
    by_memory : (memory' : Option (ℕ → ℕ)) → a.max < num → Room num memory' a
    by_memory none lt =
        let (m, run, lo, hi) = grown_size num a.max lt small in
        inl (refl, rw (lt→ltb a.max num lt, run) refl)
    by_memory (some junk) lt = regrown a valid num lt small junk

-- array_add to a valid array of fewer than 2^29 elements returns. Either kmalloc gives no memory,
-- and it ends with ENOMEM and changes nothing; or the array is valid afterwards and holds the old
-- elements in their order, followed by the new one, whose index it gives.
pub array_add_lem :
    (val : ℕ) (memory : Option (ℕ → ℕ)) (a : Array)
    → IsValid a
    → a.num < 2 ^ 29
    → ((memory ≡ none) × (array_add val memory a ≡ ok (some (fail enomem, a))))
      ⊎ ((a' : Array) × (array_add val memory a ≡ ok (some (done a.num, a')))
          × IsValid a'
          × (a'.num ≡ a.num + 1)
          × (contents a' ≡ contents a ++ val ∷ []))
unfolding array_add
array_add_lem val memory a valid small =
    elim (array_preallocate-Room (a.num + 1) memory a valid (omega arith)) [
      | inl (none', run) ↦ inl (none', rw run refl)
      | inr (a', run, valid', room, same, kept) ↦
          let inside : a.num < length a'.v = omega (arith, valid'.backed) in
          let stored : store a'.v a.num val ≡ ok (set a'.v a.num val) =
            ground (arith, get_elem?-some a'.v a.num 0 inside) in
          let next : a.num + 1 ≡ suc a.num = omega arith in
          let old : take a.num a'.v ≡ contents a =
            subst (λ n. take n a'.v ≡ contents a) same kept in
          inr (
            record a' { v = set a'.v a.num val; num = a.num + 1 },
            rw (run, stored) refl,
            record {
              within = room;
              backed = length-set a'.v a.num val ∙ valid'.backed;
              small = valid'.small;
            },
            refl,
            ap (λ n. take n (set a'.v a.num val)) next
                ∙ take-set a.num a'.v val inside
                ∙ ap (λ t. t ++ val ∷ []) old,
          )
    ]

module _ {ℓ} {A : Type ℓ} where
  take-take : (i n : ℕ) (xs : List A) → i ≤ n → take i (take n xs) ≡ take i xs
  take-take zero n xs h = refl
  take-take (suc i) zero xs h = absurd (omega arith)
  take-take (suc i) (suc n) [] h = refl
  take-take (suc i) (suc n) (x ∷ xs) h = ap (λ t. x ∷ t) (take-take i n xs (omega arith))

  drop-take : (i n m : ℕ) (xs : List A) → m ≡ i + n → drop i (take m xs) ≡ take n (drop i xs)
  drop-take zero n m xs h = let same : m ≡ n = omega arith in ap (λ k. take k xs) same
  drop-take (suc i) n zero xs h = absurd (omega arith)
  drop-take (suc i) zero (suc m) [] h = refl
  drop-take (suc i) (suc n) (suc m) [] h = refl
  drop-take (suc i) n (suc m) (x ∷ xs) h = drop-take i n m xs (omega arith)

-- array_remove of an element of a valid array returns a valid array that holds the other elements
-- in their order.
pub array_remove_lem :
    (index : ℕ) (a : Array)
    → IsValid a
    → index < a.num
    → (a' : Array) × (array_remove index a ≡ ok a')
      × IsValid a'
      × (a'.num + 1 ≡ a.num)
      × (contents a' ≡ take index (contents a) ++ drop (index + 1) (contents a))
unfolding array_remove
array_remove_lem index a valid lt =
    let n = a.num - (index + 1) in
    let front = take index a.v in
    let mid = take n (drop (index + 1) a.v) in
    let tail = drop (index + n) a.v in
    let len_front = length-take index a.v (omega (arith, valid.within, valid.backed)) in
    let len_rest = length-drop (index + 1) a.v in
    let len_mid =
      length-take n (drop (index + 1) a.v) (omega (arith, valid.within, valid.backed)) in
    let len = length-append front mid in
    let shorter : length (front ++ mid) ≡ a.num - 1 = omega arith in
    (
      record a { v = move_down a.v index n; num = a.num - 1 },
      ground (arith, valid.within),
      record {
        within = omega (arith, valid.within);
        backed = omega (
          arith,
          length-append (front ++ mid) tail,
          length-drop (index + n) a.v,
          shorter,
          valid.within,
          valid.backed,
        );
        small = valid.small;
      },
      omega arith,
      take-append (a.num - 1) (front ++ mid) tail shorter
          ∙ ap (λ t. t ++ mid) (sym (take-take index a.num a.v (omega arith)))
          ∙ ap (λ t. take index (contents a) ++ t)
              (sym (drop-take (index + 1) n a.num a.v (omega arith))),
    )
