-- ===== src/Synch/Waiting.antt =====
-- How often a thread stands on a wait channel.
use linux_like_os.Prelude.{ℕ, ◌+◌, ◌≡◌, Bool, List, [], ◌∷◌, ◌++◌, arith, ◌==◌, if◌then◌else◌}

abbrev pub one_if : Bool → ℕ
one_if b = if b then 1 else 0

unfoldable pub occurrences : ℕ → List ℕ → ℕ
occurrences t [] = 0
occurrences t (x ∷ xs) = one_if (x == t) + occurrences t xs

pub occurrences-snoc :
    (t x : ℕ) (xs : List ℕ) → occurrences t (xs ++ x ∷ []) ≡ occurrences t xs + one_if (x == t)
unfolding occurrences
occurrences-snoc t x [] = omega arith
occurrences-snoc t x (y ∷ xs) = omega (arith, occurrences-snoc t x xs)
