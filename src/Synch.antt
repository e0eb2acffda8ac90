-- ===== src/Synch.antt =====
-- kern/thread/synch.c: locks, condition variables and semaphores. Each of them has a spinlock that
-- is held except while a thread sleeps, so that what happens from taking the spinlock to releasing
-- it, or to the sleep, is one function here. A wait channel is the list of the threads that sleep on
-- it, the longest sleeper first, and waking one takes the first (kern/thread/thread.c).
pub mod Waiting
pub mod System
pub mod Invariant
pub mod Releasing
pub mod Waking
pub mod Exclusion
pub mod Semaphores
mod Tests
use linux_like_os.Prelude.{
  ℕ, ◌+◌, ◌-◌, ◌%◌, ◌^◌, Bool, true, false, ◌&&◌, Option, none, some, List, [], ◌∷◌, ◌++◌, ltb,
  ◌==◌, if◌then◌else◌, Run, ok, panic, ◌>>=◌, ◌>>◌, kassert,
}

-- `struct lock`; threads are numbers.
pub record Lock : Type 0 where
  pub lk_lock : ℕ
  pub lk_holder : Option ℕ
  pub lk_wchan : List ℕ

-- lock_create leaves `lk_holder` as kmalloc returned it.
abbrev pub lock_create : (junk : Option ℕ) → Lock
lock_create junk = record { lk_lock = 0; lk_holder = junk; lk_wchan = [] }

-- wchan_cleanup refuses a channel on which threads sleep.
unfoldable pub lock_destroy : Lock → Run (Unit {0})
lock_destroy lock = elim (lock.lk_wchan) [ [] ↦ ok tt | t ∷ ts ↦ panic ]

-- `wchan_sleep`: the thread joins the channel at the end.
abbrev pub wchan_sleep : ℕ → List ℕ → List ℕ
wchan_sleep t ts = ts ++ t ∷ []

-- `wchan_wakeone`: the thread that was woken, and the channel.
unfoldable pub wchan_wakeone : List ℕ → Option ℕ × List ℕ
wchan_wakeone [] = (none, [])
wchan_wakeone (t ∷ ts) = (some t, ts)

-- `wchan_wakeall`
abbrev pub wchan_wakeall : List ℕ → List ℕ × List ℕ
wchan_wakeall ts = (ts, [])

-- One round of the loop of lock_acquire: the thread gets the lock (true), or it goes to sleep.
unfoldable pub lock_attempt : (curthread : ℕ) → Lock → Bool × Lock
lock_attempt curthread lock =
    if lock.lk_lock == 1
    then (false, record lock { lk_wchan = wchan_sleep curthread lock.lk_wchan })
    else (true, record lock { lk_lock = 1; lk_holder = some curthread })

-- `a == b` for pointers of which one may be NULL.
abbrev pub is_thread : Option ℕ → ℕ → Bool
is_thread none t = false
is_thread (some u) t = u == t

-- The thread that is woken, if any, and the lock.
unfoldable pub lock_release : (curthread : ℕ) → Lock → Run (Option ℕ × Lock)
unfolding wchan_wakeone
lock_release curthread lock = do
  kassert (lock.lk_lock == 1)
  kassert (is_thread lock.lk_holder curthread)
  let (woken, ts) = wchan_wakeone lock.lk_wchan
  ok (woken, record { lk_lock = 0; lk_holder = none; lk_wchan = ts })

unfoldable pub lock_do_i_hold : (curthread : ℕ) → Lock → Bool
lock_do_i_hold curthread lock = lock.lk_lock == 1 && is_thread lock.lk_holder curthread

-- `struct cv`; `cv_spinlock` is the thread that has the spinlock. A thread that waits has it from
-- before it releases the lock until it is on the channel.
pub record Cv : Type 0 where
  pub cv_spinlock : Option ℕ
  pub cv_wchan : List ℕ

abbrev pub cv_create : Cv
cv_create = record { cv_spinlock = none; cv_wchan = [] }

unfoldable pub cv_destroy : Cv → Run (Unit {0})
cv_destroy cv = elim (cv.cv_spinlock) [
  | some t ↦ panic
  | none ↦ elim (cv.cv_wchan) [ [] ↦ ok tt | t ∷ ts ↦ panic ]
]

-- cv_wait up to the sleep: the spinlock is taken, and the lock is released.
unfoldable pub cv_wait_release : (curthread : ℕ) → Cv → Lock → Run (Option ℕ × Cv × Lock)
unfolding lock_do_i_hold lock_release
cv_wait_release curthread cv lock = do
  kassert (lock_do_i_hold curthread lock)
  (woken, lock') ← lock_release curthread lock
  ok (woken, record cv { cv_spinlock = some curthread }, lock')

-- The sleep of cv_wait, which gives the spinlock back. What follows is lock_acquire.
unfoldable pub cv_wait_sleep : (curthread : ℕ) → Cv → Cv
cv_wait_sleep curthread cv = record {
  cv_spinlock = none;
  cv_wchan = wchan_sleep curthread cv.cv_wchan;
}

unfoldable pub cv_signal : (curthread : ℕ) → Cv → Lock → Run (Option ℕ × Cv)
unfolding lock_do_i_hold wchan_wakeone
cv_signal curthread cv lock = do
  kassert (lock_do_i_hold curthread lock)
  let (woken, ts) = wchan_wakeone cv.cv_wchan
  ok (woken, record cv { cv_wchan = ts })

unfoldable pub cv_broadcast : (curthread : ℕ) → Cv → Lock → Run (List ℕ × Cv)
unfolding lock_do_i_hold
cv_broadcast curthread cv lock = do
  kassert (lock_do_i_hold curthread lock)
  let (woken, ts) = wchan_wakeall cv.cv_wchan
  ok (woken, record cv { cv_wchan = ts })

-- `struct semaphore`
pub record Semaphore : Type 0 where
  pub sem_count : ℕ
  pub sem_wchan : List ℕ

abbrev pub sem_create : ℕ → Semaphore
sem_create initial_count = record { sem_count = initial_count; sem_wchan = [] }

unfoldable pub sem_destroy : Semaphore → Run (Unit {0})
sem_destroy sem = elim (sem.sem_wchan) [ [] ↦ ok tt | t ∷ ts ↦ panic ]

-- One round of the loop of P: the thread is through (true), or it goes to sleep.
unfoldable pub p_attempt : (curthread : ℕ) → Semaphore → Bool × Semaphore
p_attempt curthread sem =
    if sem.sem_count == 0
    then (false, record sem { sem_wchan = wchan_sleep curthread sem.sem_wchan })
    else (true, record sem { sem_count = sem.sem_count - 1 })

-- The count is an unsigned int; V stops the kernel when it wraps to 0.
unfoldable pub v : Semaphore → Run (Option ℕ × Semaphore)
unfolding wchan_wakeone
v sem = do
  let count = (sem.sem_count + 1) % 2 ^ 32
  kassert (ltb 0 count)
  let (woken, ts) = wchan_wakeone sem.sem_wchan
  ok (woken, record { sem_count = count; sem_wchan = ts })
