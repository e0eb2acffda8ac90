-- ===== src/Synch/Releasing.antt =====
-- Leaving the lock: lock_release, and the first half of cv_wait.
use linux_like_os.Prelude.{
  ℕ, ◌≡◌, refl, ap, ◌⊎◌, inl, inr, Option, none, some, List, [], ◌∷◌, arith, List-cases, ok,
}
use linux_like_os.Synch.{Lock, lock_release, Cv, cv_wait_release}
use linux_like_os.Synch.Waiting.{occurrences}
use linux_like_os.Synch.System.{Pc, idle, trying, blocked, holding, parking, System, goto, wake}
use linux_like_os.Synch.Invariant.{Inv}

-- The lock as lock_release leaves it.
abbrev pub released : List ℕ → Lock
released ts = record { lk_lock = 0; lk_holder = none; lk_wchan = ts }

-- A thread leaves the lock, for outside or for the sleep of cv_wait.
module _ {s : System} (inv : Inv s) (t : ℕ) (at : s.pc t ≡ holding) (p : Pc) (cv' : Cv)
    (leaves : (p ≡ idle) ⊎ (p ≡ parking)) (same : cv'.cv_wchan ≡ s.cv.cv_wchan)
    (parked' : (u : ℕ) → goto s.pc t p u ≡ parking → cv'.cv_spinlock ≡ some u)
    (spinning' : (u : ℕ) → cv'.cv_spinlock ≡ some u → goto s.pc t p u ≡ parking) where
  left_quiet :
      s.lock.lk_wchan ≡ [] → Inv (record { lock = released []; cv = cv'; pc = goto s.pc t p })
  unfolding occurrences
  left_quiet none_sleeps = record {
    bit = inl refl;
    holder = λ u h. ground (arith, leaves, inv.holder u, inv.holder t at);
    taken = λ h. absurd (omega arith);
    on_lock = λ u. ground (arith, leaves, ap (occurrences u) none_sleeps, inv.on_lock u);
    on_cv = λ u. ground (arith, leaves, ap (occurrences u) same, inv.on_cv u, at);
    parked = parked';
    spinning = spinning';
    awake = λ h. inl refl;
  }

  -- The first sleeper of the channel is woken.
  module _ (w : ℕ) (ts : List ℕ) (first : s.lock.lk_wchan ≡ w ∷ ts) where
    first_blocked : s.pc w ≡ blocked
    unfolding occurrences
    first_blocked = ground (arith, inv.on_lock w, ap (occurrences w) first)

    left_woken : Inv (record { lock = released ts; cv = cv'; pc = goto (goto s.pc t p) w trying })
    unfolding occurrences
    left_woken = record {
      bit = inl refl;
      holder = λ u h. ground (arith, leaves, inv.holder u, inv.holder t at);
      taken = λ h. absurd (omega arith);
      on_lock =
          λ u. ground (arith, leaves, ap (occurrences u) first, inv.on_lock u, at, first_blocked);
      on_cv = λ u. ground (arith, leaves, ap (occurrences u) same, inv.on_cv u, at, first_blocked);
      parked = λ u h. ground (arith, parked' u);
      spinning = λ u h. ground (arith, spinning' u h, first_blocked, leaves, at);
      awake = λ h. inr (w, ground arith);
    }

  -- Whatever lock_release wakes.
  left_lock :
      (woken : Option ℕ) (lock' : Lock)
      → lock_release t s.lock ≡ ok (woken, lock')
      → Inv (record { lock = lock'; cv = cv'; pc = wake woken (goto s.pc t p) })
  unfolding lock_release
  left_lock woken lock' run = elim (List-cases s.lock.lk_wchan) [
    | inl none_sleeps ↦
        let gone : woken ≡ none = ground (arith, none_sleeps, run) in
        let lock_is : lock' ≡ released [] = ground (arith, none_sleeps, run) in
        rw (gone, lock_is) (left_quiet none_sleeps)
    | inr (w, ts, first) ↦
        let gone : woken ≡ some w = ground (arith, first, run) in
        let lock_is : lock' ≡ released ts = ground (arith, first, run) in
        rw (gone, lock_is) (left_woken w ts first)
  ]

pub release-Inv :
    {s : System} (t : ℕ) (woken : Option ℕ) (lock' : Lock)
    → s.pc t ≡ holding
    → lock_release t s.lock ≡ ok (woken, lock')
    → Inv s
    → Inv (record s { lock = lock'; pc = wake woken (goto s.pc t idle) })
release-Inv {s} t woken lock' at run inv =
    left_lock inv t at idle s.cv (inl refl) refl (λ u h. ground (arith, inv.parked u))
      (λ u h. ground (arith, inv.spinning u h, at)) woken lock' run

waited :
    (t : ℕ) (cv : Cv) (lock : Lock) {woken : Option ℕ} {cv' : Cv} {lock' : Lock}
    → cv_wait_release t cv lock ≡ ok (woken, cv', lock')
    → (cv' ≡ record cv { cv_spinlock = some t }) × (lock_release t lock ≡ ok (woken, lock'))
unfolding cv_wait_release
waited t cv lock run = ground arith

-- The spinlock is free, so that no thread is between the release and the sleep.
pub wait-Inv :
    {s : System} (t : ℕ) (woken : Option ℕ) (cv' : Cv) (lock' : Lock)
    → s.pc t ≡ holding
    → s.cv.cv_spinlock ≡ none
    → cv_wait_release t s.cv s.lock ≡ ok (woken, cv', lock')
    → Inv s
    → Inv (record { lock = lock'; cv = cv'; pc = wake woken (goto s.pc t parking) })
unfolding cv_wait_release
wait-Inv {s} t woken cv' lock' at calm run inv =
    let spun : Cv = record (s.cv) { cv_spinlock = some t } in
    let (cv_is, unlocked) : (cv' ≡ spun) × (lock_release t s.lock ≡ ok (woken, lock')) =
      waited t s.cv s.lock run in
    rw cv_is (
      left_lock inv t at parking spun (inr refl) refl (λ u h. ground (arith, inv.parked u, calm))
        (λ u h. ground arith) woken lock' unlocked)
