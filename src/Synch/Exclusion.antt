-- ===== src/Synch/Exclusion.antt =====
-- What holds in every state that the threads can reach, from a new lock and condition variable on.
use linux_like_os.Prelude.{
  ℕ, ◌<◌, ◌≡◌, refl, ap, ◌∙◌, ◌⊎◌, inl, inr, true, Option, none, some, List, [], ◌∷◌, ◌++◌, arith,
  List-cases, set, ok,
}
use linux_like_os.Synch.{
  Lock, wchan_wakeone, lock_attempt, lock_release, lock_do_i_hold, cv_wait_release, cv_wait_sleep,
  cv_signal, cv_broadcast,
}
use linux_like_os.Synch.Waiting.{occurrences}
use linux_like_os.Synch.System.{
  trying, blocked, holding, parking, waiting, System, start, attempted, Step, acquire, attempt,
  release, wait, park, signal, broadcast, Reach, here, next, sleepers,
}
use linux_like_os.Synch.Invariant.{Inv, acquire-Inv, attempt-Inv}
use linux_like_os.Synch.Releasing.{released, release-Inv, wait-Inv}
use linux_like_os.Synch.Waking.{park-Inv, signal-Inv, broadcast-Inv}

start-Inv : (junk : Option ℕ) → Inv (start junk)
unfolding occurrences
start-Inv junk = record {
  bit = inl refl;
  holder = λ t h. ground (arith, h);
  taken = λ h. absurd (omega arith);
  on_lock = λ t. refl;
  on_cv = λ t. refl;
  parked = λ t h. ground (arith, h);
  spinning = λ t h. ground (arith, h);
  awake = λ h. inl refl;
}

Step-Inv : {s u : System} → Step s u → Inv s → Inv u
Step-Inv (acquire t at) inv = acquire-Inv t at inv
Step-Inv (attempt t at) inv = attempt-Inv t at inv
Step-Inv (release t {woken} {lock'} at run) inv = release-Inv t woken lock' at run inv
Step-Inv (wait t {woken} {cv'} {lock'} at calm run) inv = wait-Inv t woken cv' lock' at calm run inv
Step-Inv (park t at) inv = park-Inv t at inv
Step-Inv (signal t {woken} {cv'} at calm run) inv = signal-Inv inv t woken cv' run
Step-Inv (broadcast t {woken} {cv'} at calm run) inv = broadcast-Inv t woken cv' run inv

pub Reach-Inv : {junk : Option ℕ} {s : System} → Reach (start junk) s → Inv s
Reach-Inv {junk} here = start-Inv junk
Reach-Inv (next r st) = Step-Inv st (Reach-Inv r)

-- Mutual exclusion: in every state that the threads reach from a new lock, whatever its holder
-- field held, two threads inside are the same one, it holds the lock in the sense of
-- lock_do_i_hold, and its lock_release passes all assertions.
pub lock_acquire-exclusive :
    (junk : Option ℕ) (s : System) (t u : ℕ)
    → Reach (start junk) s
    → s.pc t ≡ holding
    → s.pc u ≡ holding
    → (t ≡ u)
      × (lock_do_i_hold t s.lock ≡ true)
      × ((woken : Option ℕ) × (lock' : Lock) × (lock_release t s.lock ≡ ok (woken, lock')))
unfolding lock_do_i_hold lock_release
lock_acquire-exclusive junk s t u reached at also =
    let inv = Reach-Inv reached in
    let (set, mine) = inv.holder t at in
    let (woken, ts) = wchan_wakeone s.lock.lk_wchan in
    (
      ground (arith, mine, inv.holder u also),
      ground (arith, set, mine),
      (woken, released ts, ground (arith, set, mine)),
    )

-- No wakeup is lost: in every state reached from a new lock, while the lock is free and some thread
-- sleeps for it, another thread is awake
-- in lock_acquire, and its next attempt gets the lock.
pub lock_release-wakes :
    (junk : Option ℕ) (s : System) (t : ℕ)
    → Reach (start junk) s
    → s.lock.lk_lock ≡ 0
    → s.pc t ≡ blocked
    → (u : ℕ) × (s.pc u ≡ trying) × Step s (attempted u s) × ((attempted u s).pc u ≡ holding)
unfolding occurrences lock_attempt
lock_release-wakes junk s t reached free asleep =
    let inv = Reach-Inv reached in
    elim (inv.awake free) [
      | inl nobody ↦ absurd (ground (arith, inv.on_lock t, asleep, ap (occurrences t) nobody))
      | inr (u, at) ↦ (u, at, attempt u at, ground (arith, free))
    ]

-- The channel of the condition variable holds the sleepers in the order in which they went to sleep.
sleepers_order :
    {junk : Option ℕ} {s : System} (r : Reach (start junk) s) → sleepers r ≡ s.cv.cv_wchan
unfolding cv_wait_release cv_wait_sleep cv_signal cv_broadcast
sleepers_order here = refl
sleepers_order (next r (acquire t at)) = sleepers_order r
sleepers_order (next r (attempt t at)) = sleepers_order r
sleepers_order (next r (release t at run)) = sleepers_order r
sleepers_order (next r (wait t at calm run)) = ground (arith, sleepers_order r, run)
sleepers_order (next r (park t at)) = ap (λ ts. ts ++ t ∷ []) (sleepers_order r)
sleepers_order (next {u} r (signal t at calm run)) = elim (List-cases u.cv.cv_wchan) [
  | inl nobody ↦ rw (sleepers_order r, nobody) (ground (arith, nobody, run))
  | inr (w, ts, first) ↦ rw (sleepers_order r, first) (ground (arith, first, run))
]
sleepers_order (next r (broadcast t at calm run)) = ground (arith, run)

-- No signal is lost: in every state reached from a new lock, when a thread inside signals and nobody
-- has the spinlock of the condition variable, every thread that is in cv_wait and was not woken
-- since is among those that went to sleep in the run and still sleep; the signal wakes the first
-- of these to have gone to sleep, and leaves the others on the channel in their order; a broadcast
-- wakes them all.
pub cv_signal-wakes :
    (junk : Option ℕ) (s : System) (t u : ℕ) (reached : Reach (start junk) s)
    → s.pc t ≡ holding
    → s.cv.cv_spinlock ≡ none
    → (s.pc u ≡ waiting) ⊎ (s.pc u ≡ parking)
    → (w : ℕ) × (ts : List ℕ) × (sleepers reached ≡ w ∷ ts)
      × (0 < occurrences u (w ∷ ts))
      × (s.pc w ≡ waiting)
      × (cv_signal t s.cv s.lock ≡ ok (some w, record (s.cv) { cv_wchan = ts }))
      × (cv_broadcast t s.cv s.lock ≡ ok (w ∷ ts, record (s.cv) { cv_wchan = [] }))
unfolding occurrences cv_signal cv_broadcast
cv_signal-wakes junk s t u reached at calm waits =
    let inv = Reach-Inv reached in
    let (set, mine) = inv.holder t at in
    elim (List-cases s.cv.cv_wchan) [
      | inl nobody ↦
          absurd (ground (arith, waits, inv.parked u, inv.on_cv u, calm, ap (occurrences u) nobody))
      | inr (w, ts, first) ↦ (
        w,
        ts,
        sleepers_order reached ∙ first,
        ground (arith, waits, inv.parked u, inv.on_cv u, calm, ap (occurrences u) first),
        ground (arith, inv.on_cv w, ap (occurrences w) first),
        ground (arith, set, mine, first),
        ground (arith, set, mine, first),
      )
    ]
