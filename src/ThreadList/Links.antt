-- ===== src/ThreadList/Links.antt =====
-- Chains of nodes, and which nodes they pass.
use linux_like_os.Prelude.{ℕ, ◌≡◌, ◌≢◌, some, List, [], ◌∷◌, ◌++◌}
use linux_like_os.ThreadList.{Nodes}

abbrev pub Absent : ℕ → List ℕ → Type 0
Absent a [] = Unit
Absent a (x ∷ xs) = (a ≢ x) × Absent a xs

abbrev pub Nodup : List ℕ → Type 0
Nodup [] = Unit
Nodup (x ∷ xs) = Absent x xs × Nodup xs

-- Neighbours point at one another.
abbrev pub Chain : Nodes → List ℕ → Type 0
Chain s [] = Unit
Chain s (x ∷ []) = Unit
Chain s (x ∷ y ∷ r) = (s.tln_next x ≡ some y) × (s.tln_prev y ≡ some x) × Chain s (y ∷ r)

-- The neighbours of the place between `us` and `vs`, in a list from node `h` to node `t`.
abbrev pub last_of : ℕ → List ℕ → ℕ
last_of h [] = h
last_of h (u ∷ us) = last_of u us

abbrev pub first_of : List ℕ → ℕ → ℕ
first_of [] t = t
first_of (v ∷ vs) t = v

pub Absent-last : (x u : ℕ) (us r : List ℕ) → Absent x (u ∷ us ++ r) → x ≢ last_of u us
Absent-last x u [] r (ne, rest) = ne
Absent-last x u (w ∷ us) r (ne, rest) = Absent-last x w us r rest

pub Absent-first : (x t : ℕ) (us vs : List ℕ) → Absent x (us ++ vs ++ t ∷ []) → x ≢ first_of vs t
Absent-first x t [] [] (ne, rest) = ne
Absent-first x t [] (v ∷ vs) (ne, rest) = ne
Absent-first x t (u ∷ us) vs (ne, rest) = Absent-first x t us vs rest

pub Absent-append : (x : ℕ) (us vs : List ℕ) → Absent x us → Absent x vs → Absent x (us ++ vs)
Absent-append x [] vs a b = b
Absent-append x (u ∷ us) vs (ne, a) b = (ne, Absent-append x us vs a b)

pub Absent-front : (x : ℕ) (us vs : List ℕ) → Absent x (us ++ vs) → Absent x us
Absent-front x [] vs a = tt
Absent-front x (u ∷ us) vs (ne, a) = (ne, Absent-front x us vs a)

pub Absent-back : (x : ℕ) (us vs : List ℕ) → Absent x (us ++ vs) → Absent x vs
Absent-back x [] vs a = a
Absent-back x (u ∷ us) vs (ne, a) = Absent-back x us vs a
