-- ===== src/FileTable/Counted.antt =====
-- The reference counts of the open files. A system runs several processes: the tables of the
-- others are a parameter, which the calls of the current process do not change.
use linux_like_os.Prelude.{
  ℕ, zero, suc, ◌+◌, ◌≤◌, ◌<◌, ◌≡◌, refl, Option, none, some, List, [], ◌∷◌, arith, ◌==◌,
  if◌then◌else◌, length, set,
}
use linux_like_os.Prelude.Int.{ℤ, pos}
use linux_like_os.FileTable.{FileHandler, Files, open_max, slot}
use linux_like_os.FileTable.Defs.{FileHandler, Files, open_max, slot}

-- How often an entry holds an address.
abbrev pub one : ℕ → Option ℕ → ℕ
one p none = 0
one p (some q) = if p == q then 1 else 0

-- How often a table holds an address.
unfoldable pub refs : ℕ → List (Option ℕ) → ℕ
refs p [] = 0
refs p (o ∷ t) = one p o + refs p t

-- The count of the handler at an address, 0 for no handler.
abbrev pub count_of : Option FileHandler → ℤ
count_of none = pos 0
count_of (some h) = h.d_count

-- Every handler counts the slots, of all processes, that hold it, and is freed with the last one;
-- `others` tells how often the other processes' tables hold an address.
pub record IsCounted (others : ℕ → ℕ) (s : Files) : Type 0 where
  pub size : length s.table ≡ open_max
  pub counted : (p : ℕ) → count_of (s.handlers p) ≡ pos (refs p s.table + others p)
  pub live : (p : ℕ) (h : FileHandler) → s.handlers p ≡ some h → 0 < refs p s.table + others p

pub refs-set :
    (p : ℕ) (t : List (Option ℕ)) (i : ℕ) (v : Option ℕ)
    → i < length t
    → refs p (set t i v) + one p (slot t i) ≡ refs p t + one p v
unfolding refs
refs-set p [] i v h = absurd (omega arith)
refs-set p (o ∷ t) zero v h = omega arith
refs-set p (o ∷ t) (suc i) v h = omega (arith, refs-set p t i v)

-- A slot that holds an address is counted.
pub one-le-refs : (p : ℕ) (t : List (Option ℕ)) (i : ℕ) → one p (slot t i) ≤ refs p t
unfolding refs
one-le-refs p [] i = omega arith
one-le-refs p (o ∷ t) zero = omega arith
one-le-refs p (o ∷ t) (suc i) = omega (arith, one-le-refs p t i)

-- An open descriptor has a handler, whose count is positive.
pub handler_of_slot :
    {others : ℕ → ℕ} {s : Files} (i p : ℕ)
    → IsCounted others s
    → slot s.table i ≡ some p
    → (h : FileHandler) × (s.handlers p ≡ some h)
      × (h.d_count ≡ pos (refs p s.table + others p))
      × (0 < refs p s.table)
handler_of_slot {others} {s} i p c e = go (s.handlers p) refl
  where
    inside : 0 < refs p s.table
    inside = ground (arith, one-le-refs p s.table i)

    go :
        (o : Option FileHandler)
        → s.handlers p ≡ o
        → (h : FileHandler) × (s.handlers p ≡ some h)
          × (h.d_count ≡ pos (refs p s.table + others p))
          × (0 < refs p s.table)
    go none q = absurd (ground (arith, inside, c.counted p))
    go (some h) q = (h, q, ground (arith, c.counted p), inside)
