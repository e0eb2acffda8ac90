-- ===== src/ThreadList/Remove.antt =====
-- A node leaves a chain.
use linux_like_os.Prelude.{ℕ, sym, ◌≢◌, none, some, List, [], ◌∷◌, ◌++◌, arith}
use linux_like_os.ThreadList.{Nodes, write}
use linux_like_os.ThreadList.Links.{
  Absent, Nodup, Chain, last_of, first_of, Absent-last, Absent-first, Absent-front,
}

-- The nodes with `a` and `b` joined, and `n` off the list.
abbrev pub joined : (a n b : ℕ) → Nodes → Nodes
joined a n b s = record s {
  tln_next = write (write s.tln_next a (some b)) n none;
  tln_prev = write (write s.tln_prev b (some a)) n none;
}

module _ (s : Nodes) (a n b : ℕ) where
  rest-Chain :
      (y : ℕ) (ys : List ℕ)
      → Absent a (y ∷ ys)
      → Absent n (y ∷ ys)
      → Absent b ys
      → Chain s (y ∷ ys)
      → Chain (joined a n b s) (y ∷ ys)
  rest-Chain y [] out_a out_n out_b c = tt
  rest-Chain y (z ∷ zs) (ay, out_a) (ny, out_n) (bz, out_b) (fwd, back, c) =
      (ground (arith, fwd), ground (arith, back, out_a, out_n), rest-Chain z zs out_a out_n out_b c)

Absent-skip :
    (x n t : ℕ) (us vs : List ℕ) → Absent x (us ++ n ∷ vs ++ t ∷ []) → Absent x (us ++ vs ++ t ∷ [])
Absent-skip x n t [] vs (ne, o) = o
Absent-skip x n t (u ∷ us) vs (ne, o) = (ne, Absent-skip x n t us vs o)

Absent-at : (x n t : ℕ) (us vs : List ℕ) → Absent x (us ++ n ∷ vs ++ t ∷ []) → x ≢ n
Absent-at x n t [] vs (ne, o) = ne
Absent-at x n t (u ∷ us) vs (ne, o) = Absent-at x n t us vs o

-- The list without `n` has no node twice, and `n` is not on it.
pub remove-Nodup :
    (n t : ℕ) (us vs : List ℕ)
    → Nodup (us ++ n ∷ vs ++ t ∷ [])
    → Nodup (us ++ vs ++ t ∷ []) × Absent n (us ++ vs ++ t ∷ [])
remove-Nodup n t [] vs (out, d) = (d, out)
remove-Nodup n t (u ∷ us) vs (out, d) =
    let (rest, off) = remove-Nodup n t us vs d in
    ((Absent-skip u n t us vs out, rest), ((λ x. Absent-at u n t us vs out (sym x)), off))

module _ (s : Nodes) (n t : ℕ) where
  pub remove-Chain :
      (h : ℕ) (us vs : List ℕ)
      → Chain s (h ∷ us ++ n ∷ vs ++ t ∷ [])
      → Nodup (h ∷ us ++ n ∷ vs ++ t ∷ [])
      → Chain (joined (last_of h us) n (first_of vs t) s) (h ∷ us ++ vs ++ t ∷ [])
  remove-Chain h [] [] (f, b, (f', b', c)) ((hn, (ht, out)), ((nt, o), d)) =
      (ground arith, ground arith, tt)
  remove-Chain h [] (v ∷ vs) (f, b, (f', b', c)) ((hn, (hv, out)), ((nv, o), (out_v, d))) =
      (ground arith, ground arith, rest-Chain s h n v v (vs ++ t ∷ []) (hv, out) (nv, o) out_v c)
  remove-Chain h (u ∷ us) vs (fwd, back, c) (out, (out_u, d)) = (
    ground (
      arith,
      fwd,
      Absent-last h u us (n ∷ vs) (Absent-front h (u ∷ us ++ n ∷ vs) (t ∷ []) out),
      Absent-at h n t (u ∷ us) vs out,
    ),
    ground (
      arith,
      back,
      Absent-first u t us vs (Absent-skip u n t us vs out_u),
      Absent-at u n t us vs out_u,
    ),
    remove-Chain u us vs c (out_u, d),
  )
