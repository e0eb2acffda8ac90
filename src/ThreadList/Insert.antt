-- ===== src/ThreadList/Insert.antt =====
-- A node enters a chain.
use linux_like_os.Prelude.{ℕ, sym, ◌≢◌, some, List, [], ◌∷◌, ◌++◌, arith}
use linux_like_os.ThreadList.{Nodes, write}
use linux_like_os.ThreadList.Links.{
  Absent, Nodup, Chain, last_of, first_of, Absent-last, Absent-first, Absent-front,
}

-- The nodes with `n` between `a` and `b`.
abbrev pub between : (a n b : ℕ) → Nodes → Nodes
between a n b s = record s {
  tln_next = write (write s.tln_next n (some b)) a (some n);
  tln_prev = write (write s.tln_prev n (some a)) b (some n);
}

module _ (s : Nodes) (a n b : ℕ) where
  -- The part of the chain from `b` on.
  rest-Chain :
      (y : ℕ) (ys : List ℕ)
      → Absent a (y ∷ ys)
      → Absent n (y ∷ ys)
      → Absent b ys
      → Chain s (y ∷ ys)
      → Chain (between a n b s) (y ∷ ys)
  rest-Chain y [] out_a out_n out_b c = tt
  rest-Chain y (z ∷ zs) (ay, out_a) (ny, out_n) (bz, out_b) (fwd, back, c) =
      (ground (arith, fwd), ground (arith, back, out_a, out_n), rest-Chain z zs out_a out_n out_b c)

module _ (s : Nodes) (n t : ℕ) where
  pub insert-Chain :
      (h : ℕ) (us vs : List ℕ)
      → Chain s (h ∷ us ++ vs ++ t ∷ [])
      → Nodup (h ∷ us ++ vs ++ t ∷ [])
      → Absent n (h ∷ us ++ vs ++ t ∷ [])
      → Chain (between (last_of h us) n (first_of vs t) s) (h ∷ us ++ n ∷ vs ++ t ∷ [])
  insert-Chain h [] [] c (out, d) (nh, (nt, o)) =
      (ground arith, ground (arith, out), (ground arith, ground arith, tt))
  insert-Chain h [] (v ∷ vs) (fwd, back, c) ((hv, out), (out_v, d)) (nh, (nv, o)) = (
    ground arith,
    ground arith,
    (ground arith, ground arith, rest-Chain s h n v v (vs ++ t ∷ []) (hv, out) (nv, o) out_v c),
  )
  insert-Chain h (u ∷ us) vs (fwd, back, c) (out, (out_u, d)) (nh, (nu, o)) = (
    ground (arith, fwd, Absent-last h u us vs (Absent-front h (u ∷ us ++ vs) (t ∷ []) out)),
    ground (arith, back, Absent-first u t us vs out_u),
    insert-Chain u us vs c (out_u, d) (nu, o),
  )

insert-Absent :
    (x n t : ℕ) (us vs : List ℕ)
    → x ≢ n
    → Absent x (us ++ vs ++ t ∷ [])
    → Absent x (us ++ n ∷ vs ++ t ∷ [])
insert-Absent x n t [] vs ne o = (ne, o)
insert-Absent x n t (u ∷ us) vs ne (xu, o) = (xu, insert-Absent x n t us vs ne o)

pub insert-Nodup :
    (n t : ℕ) (us vs : List ℕ)
    → Absent n (us ++ vs ++ t ∷ [])
    → Nodup (us ++ vs ++ t ∷ [])
    → Nodup (us ++ n ∷ vs ++ t ∷ [])
insert-Nodup n t [] vs o d = (o, d)
insert-Nodup n t (u ∷ us) vs (nu, o) (out, d) =
    (insert-Absent u n t us vs (λ x. nu (sym x)) out, insert-Nodup n t us vs o d)
