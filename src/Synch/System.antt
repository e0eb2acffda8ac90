-- ===== src/Synch/System.antt =====
-- Threads that share a lock and a condition variable, as a step relation: each step is what one
-- thread does while it has a spinlock, in any interleaving.
use linux_like_os.Prelude.{
  ℕ, ◌≡◌, Bool, true, false, Option, none, some, List, [], ◌∷◌, ◌++◌, ◌==◌, if◌then◌else◌, drop, ok,
}
use linux_like_os.Synch.{
  Lock, lock_create, lock_attempt, lock_release, Cv, cv_create, cv_wait_release, cv_wait_sleep,
  cv_signal, cv_broadcast,
}

-- Where a thread is: outside the lock; in lock_acquire and awake; asleep in lock_acquire; inside;
-- in cv_wait, the lock released and the spinlock held; asleep in cv_wait.
pub data Pc : Type 0 where
  idle trying blocked holding parking waiting : Pc

pub record System : Type 0 where
  pub lock : Lock
  pub cv : Cv
  pub pc : ℕ → Pc

abbrev pub goto : (ℕ → Pc) → ℕ → Pc → ℕ → Pc
goto pc t p u = if t == u then p else pc u

-- A thread that is woken tries to get the lock, out of lock_acquire as well as out of cv_wait.
abbrev pub wake : Option ℕ → (ℕ → Pc) → ℕ → Pc
wake none pc = pc
wake (some t) pc = goto pc t trying

abbrev pub wake_all : List ℕ → (ℕ → Pc) → ℕ → Pc
wake_all [] pc = pc
wake_all (t ∷ ts) pc = wake_all ts (goto pc t trying)

abbrev pub start : Option ℕ → System
start junk = record { lock = lock_create junk; cv = cv_create; pc = λ t. idle }

abbrev pub attempted : ℕ → System → System
attempted t s =
    let (got, lock') = lock_attempt t s.lock in
    record s { lock = lock'; pc = goto s.pc t (if got then holding else blocked) }

pub data Step (s : System) : System → Type 0 where
  acquire : (t : ℕ) → s.pc t ≡ idle → Step s (record s { pc = goto s.pc t trying })
  attempt : (t : ℕ) → s.pc t ≡ trying → Step s (attempted t s)
  release :
      (t : ℕ) {woken : Option ℕ} {lock' : Lock}
      → s.pc t ≡ holding
      → lock_release t s.lock ≡ ok (woken, lock')
      → Step s (record s { lock = lock'; pc = wake woken (goto s.pc t idle) })
  wait :
      (t : ℕ) {woken : Option ℕ} {cv' : Cv} {lock' : Lock}
      → s.pc t ≡ holding
      → s.cv.cv_spinlock ≡ none
      → cv_wait_release t s.cv s.lock ≡ ok (woken, cv', lock')
      → Step s (record { lock = lock'; cv = cv'; pc = wake woken (goto s.pc t parking) })
  park :
      (t : ℕ)
      → s.pc t ≡ parking
      → Step s (record s { cv = cv_wait_sleep t s.cv; pc = goto s.pc t waiting })
  signal :
      (t : ℕ) {woken : Option ℕ} {cv' : Cv}
      → s.pc t ≡ holding
      → s.cv.cv_spinlock ≡ none
      → cv_signal t s.cv s.lock ≡ ok (woken, cv')
      → Step s (record s { cv = cv'; pc = wake woken s.pc })
  broadcast :
      (t : ℕ) {woken : List ℕ} {cv' : Cv}
      → s.pc t ≡ holding
      → s.cv.cv_spinlock ≡ none
      → cv_broadcast t s.cv s.lock ≡ ok (woken, cv')
      → Step s (record s { cv = cv'; pc = wake_all woken s.pc })

pub data Reach (s : System) : System → Type 0 where
  here : Reach s s
  next : {u w : System} → Reach s u → Step u w → Reach s w

-- The threads that went to sleep in cv_wait during the run and are still asleep, the first first:
-- a signal ends the sleep of the first, a broadcast that of all.
abbrev pub sleepers : {a s : System} → Reach a s → List ℕ
sleepers here = []
sleepers (next r (park t at)) = sleepers r ++ t ∷ []
sleepers (next r (signal t at calm run)) = drop 1 (sleepers r)
sleepers (next r (broadcast t at calm run)) = []
sleepers (next r (acquire t at)) = sleepers r
sleepers (next r (attempt t at)) = sleepers r
sleepers (next r (release t at run)) = sleepers r
sleepers (next r (wait t at calm run)) = sleepers r

abbrev pub is_blocked : Pc → Bool
is_blocked blocked = true
is_blocked _ = false

abbrev pub is_waiting : Pc → Bool
is_waiting waiting = true
is_waiting _ = false
