-- ===== src/PidTable/Ready.antt =====
-- The number of free pids in a range of the status array, and the search for the next one.
use linux_like_os.Prelude.{
  ℕ, zero, suc, ◌+◌, ◌≤◌, ◌<◌, ◌≡◌, refl, ap, ◌≢◌, ◌⊎◌, inl, some, List, arith, ℕ_discrete, ◌==◌,
  if◌then◌else◌, length, get_or, set, get_or-set, get_elem?-some, ok,
}
use linux_like_os.PidTable.Slots.{ready, running, next_ready}

-- Beyond the array nothing is free.
abbrev pub status_of : List ℕ → ℕ → ℕ
status_of st i = get_or st i running

abbrev pub weight : ℕ → ℕ
weight v = if v == ready then 1 else 0

-- The free pids among `n` from `i` on.
unfoldable pub ready_count : (n i : ℕ) → List ℕ → ℕ
ready_count zero i st = 0
ready_count (suc n) i st = weight (status_of st i) + ready_count n (i + 1) st

module _ (st : List ℕ) (j v : ℕ) (inside : j < length st) where
  pub ready_count-set_outside :
      (n i : ℕ) → (j < i) ⊎ (i + n ≤ j) → ready_count n i (set st j v) ≡ ready_count n i st
  unfolding ready_count
  ready_count-set_outside zero i out = refl
  ready_count-set_outside (suc n) i out =
      ground
        (arith, ready_count-set_outside n (i + 1) (omega arith), get_or-set st j i v running inside)

  pub ready_count-set :
      (n i : ℕ)
      → i ≤ j
      → j < i + n
      → ready_count n i (set st j v) + weight (status_of st j) ≡ ready_count n i st + weight v
  unfolding ready_count
  ready_count-set zero i lo hi = absurd (omega arith)
  ready_count-set (suc n) i lo hi = elim (ℕ_discrete i j) [
    | yes here ↦ ground (
      arith,
      ready_count-set_outside n (i + 1) (inl (omega arith)),
      get_or-set st j i v running inside,
      ap (status_of st) here,
    )
    | no ne ↦ ground (
      arith,
      ready_count-set n (i + 1) (omega arith) (omega arith),
      get_or-set st j i v running inside,
    )
  ]

module _ (st : List ℕ) where
  pub ready_count-pos :
      (n i j : ℕ) → i ≤ j → j < i + n → status_of st j ≡ ready → 0 < ready_count n i st
  unfolding ready_count
  ready_count-pos zero i j lo hi h = absurd (omega arith)
  ready_count-pos (suc n) i j lo hi h = elim (ℕ_discrete i j) [
    | yes here ↦ ground (arith, ap (status_of st) here)
    | no ne ↦ ground (arith, ready_count-pos n (i + 1) j (omega arith) (omega arith) h)
  ]

  pub find_ready :
      (n i : ℕ)
      → 0 < ready_count n i st
      → (j : ℕ) × (i ≤ j) × (j < i + n) × (status_of st j ≡ ready)
  unfolding ready_count
  find_ready zero i h = absurd (omega arith)
  find_ready (suc n) i h = elim (ℕ_discrete (status_of st i) ready) [
    | yes here ↦ (i, omega arith, omega arith, here)
    | no ne ↦
        let (j, lo, hi, found) = find_ready n (i + 1) (ground arith) in
        (j, omega arith, omega arith, found)
  ]

  -- The search stops at the first free pid if there is one.
  pub next_ready_lem :
      (n i j : ℕ)
      → i ≤ j
      → j < i + n
      → j < length st
      → status_of st j ≡ ready
      → (k : ℕ) × (next_ready n i st ≡ ok (some k))
        × (i ≤ k)
        × (k ≤ j)
        × (status_of st k ≡ ready)
        × ((m : ℕ) → i ≤ m → m < k → status_of st m ≢ ready)
  unfolding next_ready
  next_ready_lem zero i j lo hi inside h = absurd (omega arith)
  next_ready_lem (suc n) i j lo hi inside h = elim (ℕ_discrete (status_of st i) ready) [
    | yes here ↦ (
      i,
      ground (arith, get_elem?-some st i running (omega arith)),
      omega arith,
      lo,
      here,
      λ m a b. absurd (omega arith),
    )
    | no ne ↦
        let other : i ≢ j = λ same. ne (ground (arith, ap (status_of st) same)) in
        let (k, run, a, b, found, before) =
          next_ready_lem n (i + 1) j (omega arith) (omega arith) inside h in
        (
          k,
          ground (arith, get_elem?-some st i running (omega arith)),
          omega arith,
          b,
          found,
          λ m lo' hi' free'. elim (ℕ_discrete m i) [
            | yes same ↦ ne (ground (arith, ap (status_of st) same))
            | no ne' ↦ before m (omega arith) hi' free'
          ],
        )
  ]
