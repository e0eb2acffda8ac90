-- ===== src/Time/Laws.antt =====
-- Sums and differences of times are each other's inverses.
use linux_like_os.Prelude.{ℕ, ◌+◌, ◌-◌, ◌≤◌, ◌<◌, ◌≡◌, ap, ◌∙◌, arith, dec_lt}
use linux_like_os.Prelude.Int.{ℤ, pos, ◌+ℤ◌, ◌-ℤ◌, int_laws}
use linux_like_os.Time.{Timespec, timespec_add, timespec_sub}

-- A time of some seconds and nanoseconds.
abbrev pub at : ℤ → ℕ → Timespec
at sec n = record { tv_sec = sec; tv_nsec = pos n }

pos_add : (m n : ℕ) → pos m +ℤ pos n ≡ pos (m + n)
unfolding ◌+ℤ◌
pos_add m n = ground arith

pos_sub : (m n : ℕ) → n ≤ m → pos m -ℤ pos n ≡ pos (m - n)
unfolding ◌-ℤ◌
pos_sub m n h = ground arith

sec_back : (a b : ℤ) → a +ℤ b -ℤ b ≡ a
sec_back a b = omega int_laws

sec_back_carry : (a b : ℤ) → a +ℤ b +ℤ pos 1 -ℤ pos 1 -ℤ b ≡ a
sec_back_carry a b = omega int_laws

module _ (s t : ℤ) (m n : ℕ) where
  add_small : m + n < 1000000000 → timespec_add (at s m) (at t n) ≡ at (s +ℤ t) (m + n)
  unfolding timespec_add
  add_small h = rw (pos_add m n) (ground arith)

  add_large :
      1000000000 ≤ m + n
      → timespec_add (at s m) (at t n) ≡ at (s +ℤ t +ℤ pos 1) (m + n - 1000000000)
  unfolding timespec_add
  add_large h = rw (pos_add m n, pos_sub (m + n) 1000000000 h) (ground arith)

  sub_small : n ≤ m → timespec_sub (at s m) (at t n) ≡ at (s -ℤ t) (m - n)
  unfolding timespec_sub
  sub_small h = rw (pos_sub m n h) (ground arith)

  sub_borrow :
      m < n
      → n ≤ 1000000000
      → timespec_sub (at s m) (at t n) ≡ at (s -ℤ pos 1 -ℤ t) (m + 1000000000 - n)
  unfolding timespec_sub
  sub_borrow h k =
      rw (pos_add m 1000000000, pos_sub (m + 1000000000) n (omega arith)) (ground arith)

-- The sum of two times whose nanoseconds are below a second has its nanoseconds below a second,
-- and taking the second time away from it gives the first one back.
timespec_add-timespec_sub :
    (s t : ℤ) (m n : ℕ)
    → m < 1000000000
    → n < 1000000000
    → ((k : ℕ) × ((timespec_add (at s m) (at t n)).tv_nsec ≡ pos k) × (k < 1000000000))
      × (timespec_sub (timespec_add (at s m) (at t n)) (at t n) ≡ at s m)
timespec_add-timespec_sub s t m n m_lt n_lt = elim (dec_lt (m + n) 1000000000) [
  | yes small ↦
      let back : m + n - n ≡ m = omega arith in
      (
        (m + n, ap (λ x. x.tv_nsec) (add_small s t m n small), small),
        ap (λ x. timespec_sub x (at t n)) (add_small s t m n small)
            ∙ sub_small (s +ℤ t) t (m + n) n (omega arith)
            ∙ ap (λ x. at x (m + n - n)) (sec_back s t)
            ∙ ap (at s) back,
      )
  | no large ↦
      let k = m + n - 1000000000 in
      let back : k + 1000000000 - n ≡ m = omega arith in
      (
        (k, ap (λ x. x.tv_nsec) (add_large s t m n (omega arith)), omega arith),
        ap (λ x. timespec_sub x (at t n)) (add_large s t m n (omega arith))
            ∙ sub_borrow (s +ℤ t +ℤ pos 1) t k n (omega arith) (omega arith)
            ∙ ap (λ x. at x (k + 1000000000 - n)) (sec_back_carry s t)
            ∙ ap (at s) back,
      )
]
