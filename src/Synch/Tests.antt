-- ===== src/Synch/Tests.antt =====
-- Runs of threads on a lock, a condition variable and a semaphore.
use linux_like_os.Synch.Waiting.{occurrences}
use linux_like_os.Prelude.{
  ℕ, ◌+◌, ◌≤◌, ◌<◌, ◌≡◌, refl, inl, true, Option, none, some, List, [], ◌∷◌, arith, ok,
}
use linux_like_os.Synch.{
  Lock, lock_attempt, lock_release, lock_do_i_hold, cv_create, cv_wait_release, cv_wait_sleep,
  cv_signal, cv_broadcast, p_attempt, v,
}
use linux_like_os.Synch.System.{
  idle, trying, blocked, holding, parking, waiting, System, goto, start, attempted, Step, acquire,
  attempt, release, wait, park, Reach, here, next, sleepers,
}
use linux_like_os.Synch.Exclusion.{lock_acquire-exclusive, lock_release-wakes, cv_signal-wakes}
use linux_like_os.Synch.Semaphores.{
  Users, fresh, tried, UserStep, enter, try_p, up, UserReach, begin, after, p-v, v-wakes,
}

-- Thread 1 is inside, and threads 2 and 3 sleep for the lock.
abbrev inside : System
inside = record {
  lock = record { lk_lock = 1; lk_holder = some 1; lk_wchan = 2 ∷ 3 ∷ [] };
  cv = cv_create;
  pc =
      goto
        (goto (goto (goto (goto (goto (λ t. idle) 1 trying) 1 holding) 2 trying) 2 blocked) 3
          trying)
        3 blocked;
}

Reach-inside : Reach (start (some 9)) inside
unfolding lock_attempt
Reach-inside =
    next
      (next
        (next (next (next (next here (acquire 1 refl)) (attempt 1 refl)) (acquire 2 refl))
          (attempt 2 refl))
        (acquire 3 refl))
      (attempt 3 refl)

lock_acquire-exclusive_example :
    (◌≡◌ {A = ℕ} 1 1)
    × (lock_do_i_hold 1 inside.lock ≡ true)
    × ((woken : Option ℕ) × (lock' : Lock) × (lock_release 1 inside.lock ≡ ok (woken, lock')))
lock_acquire-exclusive_example = lock_acquire-exclusive (some 9) inside 1 1 Reach-inside refl refl

-- Thread 1 has left, and thread 2 is awake.
abbrev left : System
left = record inside {
  lock = record { lk_lock = 0; lk_holder = none; lk_wchan = 3 ∷ [] };
  pc = goto (goto inside.pc 1 idle) 2 trying;
}

Reach-left : Reach (start (some 9)) left
unfolding lock_release
Reach-left = next Reach-inside (release 1 refl refl)

lock_release-wakes_example :
    (u : ℕ) × (left.pc u ≡ trying)
    × Step left (attempted u left)
    × ((attempted u left).pc u ≡ holding)
lock_release-wakes_example = lock_release-wakes (some 9) left 3 Reach-left refl refl

-- Thread 1 waits on the condition variable, and thread 2 has got the lock.
abbrev waits : System
waits = record {
  lock = record { lk_lock = 1; lk_holder = some 2; lk_wchan = 3 ∷ [] };
  cv = record { cv_spinlock = none; cv_wchan = 1 ∷ [] };
  pc = goto (goto (goto (goto inside.pc 1 parking) 2 trying) 1 waiting) 2 holding;
}

Reach-waits : Reach (start (some 9)) waits
unfolding lock_attempt cv_wait_release cv_wait_sleep
Reach-waits = next (next (next Reach-inside (wait 1 refl refl refl)) (park 1 refl)) (attempt 2 refl)

cv_signal-wakes_example :
    (w : ℕ) × (ts : List ℕ) × (sleepers Reach-waits ≡ w ∷ ts)
    × (0 < occurrences 1 (w ∷ ts))
    × (waits.pc w ≡ waiting)
    × (cv_signal 2 waits.cv waits.lock ≡ ok (some w, record (waits.cv) { cv_wchan = ts }))
    × (cv_broadcast 2 waits.cv waits.lock ≡ ok (w ∷ ts, record (waits.cv) { cv_wchan = [] }))
cv_signal-wakes_example = cv_signal-wakes (some 9) waits 2 1 Reach-waits refl refl (inl refl)

-- Threads 1 and 2 sleep in P, and a call of V has woken thread 1.
abbrev upped : Users
upped = record {
  sem = record { sem_count = 1; sem_wchan = 2 ∷ [] };
  awake = 1 ∷ [];
  ups = 1;
  downs = 0;
}

Reach-upped : UserReach (fresh 0) upped
unfolding p_attempt v
Reach-upped =
    after
      (after (after (after (after begin (enter 1)) (try_p 1 0 refl)) (enter 2)) (try_p 2 0 refl))
      (up refl)

p-v_example : (1 + 0 ≡ 0 + 1) × (0 ≤ 0 + 1)
p-v_example = p-v 0 upped (omega arith) Reach-upped

v-wakes_example :
    (t : ℕ) × (i : ℕ) × UserStep upped (tried t i upped) × ((p_attempt t upped.sem).0 ≡ true)
v-wakes_example = v-wakes 0 upped 2 [] (omega arith) Reach-upped (omega arith) refl
