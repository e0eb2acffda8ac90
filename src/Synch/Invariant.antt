-- ===== src/Synch/Invariant.antt =====
-- The invariant of the threads, and the steps of lock_acquire.
use linux_like_os.Prelude.{ℕ, ◌≡◌, ◌⊎◌, inl, inr, some, [], arith}
use linux_like_os.Synch.{lock_attempt}
use linux_like_os.Synch.Waiting.{one_if, occurrences, occurrences-snoc}
use linux_like_os.Synch.System.{
  idle, trying, holding, parking, System, goto, attempted, is_blocked, is_waiting,
}

-- `lk_lock` is set for exactly the thread inside; the channels hold exactly the sleepers; the
-- spinlock of the condition variable is that of the thread going to sleep; and while the lock is
-- free, either nobody sleeps for it or somebody is awake to take it.
pub record Inv (s : System) : Type 0 where
  pub bit : (s.lock.lk_lock ≡ 0) ⊎ (s.lock.lk_lock ≡ 1)
  pub holder : (t : ℕ) → s.pc t ≡ holding → (s.lock.lk_lock ≡ 1) × (s.lock.lk_holder ≡ some t)
  pub taken : s.lock.lk_lock ≡ 1 → (t : ℕ) × (s.lock.lk_holder ≡ some t) × (s.pc t ≡ holding)
  pub on_lock : (t : ℕ) → occurrences t s.lock.lk_wchan ≡ one_if (is_blocked (s.pc t))
  pub on_cv : (t : ℕ) → occurrences t s.cv.cv_wchan ≡ one_if (is_waiting (s.pc t))
  pub parked : (t : ℕ) → s.pc t ≡ parking → s.cv.cv_spinlock ≡ some t
  pub spinning : (t : ℕ) → s.cv.cv_spinlock ≡ some t → s.pc t ≡ parking
  pub awake : s.lock.lk_lock ≡ 0 → (s.lock.lk_wchan ≡ []) ⊎ ((t : ℕ) × (s.pc t ≡ trying))

pub acquire-Inv :
    {s : System} (t : ℕ) → s.pc t ≡ idle → Inv s → Inv (record s { pc = goto s.pc t trying })
acquire-Inv t at inv = record {
  bit = inv.bit;
  holder = λ u h. ground (arith, inv.holder u);
  taken = λ h. let (u, is, there) = inv.taken h in (u, is, ground (arith, there, at));
  on_lock = λ u. ground (arith, inv.on_lock u, at);
  on_cv = λ u. ground (arith, inv.on_cv u, at);
  parked = λ u h. ground (arith, inv.parked u);
  spinning = λ u h. ground (arith, inv.spinning u h);
  awake = λ h. inr (t, ground arith);
}

pub attempt-Inv : {s : System} (t : ℕ) → s.pc t ≡ trying → Inv s → Inv (attempted t s)
unfolding lock_attempt
attempt-Inv {s} t at inv = elim (inv.bit) [
  | inl free ↦ record {
    bit = ground (arith, free);
    holder = λ u h. ground (arith, free, inv.holder u, at);
    taken = λ h. (t, ground (arith, free), ground (arith, free));
    on_lock = λ u. ground (arith, free, inv.on_lock u, at);
    on_cv = λ u. ground (arith, free, inv.on_cv u, at);
    parked = λ u h. ground (arith, free, inv.parked u);
    spinning = λ u h. ground (arith, free, inv.spinning u h, at);
    awake = λ h. ground (arith, free);
  }
  | inr held ↦ record {
    bit = ground (arith, held);
    holder = λ u h. ground (arith, held, inv.holder u, at);
    taken = λ h.
        let (u, is, there) = inv.taken held in
        (u, ground (arith, held, is), ground (arith, held, there, at));
    on_lock = λ u. ground (arith, held, inv.on_lock u, at, occurrences-snoc u t s.lock.lk_wchan);
    on_cv = λ u. ground (arith, held, inv.on_cv u, at);
    parked = λ u h. ground (arith, held, inv.parked u);
    spinning = λ u h. ground (arith, held, inv.spinning u h, at);
    awake = λ h. ground (arith, held);
  }
]
