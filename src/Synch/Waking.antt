-- ===== src/Synch/Waking.antt =====
-- The second half of cv_wait, and waking the threads that wait.
use linux_like_os.Prelude.{
  ℕ, ◌≡◌, refl, ap, subst, inl, inr, Option, none, some, List, [], ◌∷◌, arith, List-cases, ok,
}
use linux_like_os.Synch.{Cv, cv_wait_sleep, cv_signal, cv_broadcast}
use linux_like_os.Synch.Waiting.{occurrences, occurrences-snoc}
use linux_like_os.Synch.System.{trying, parking, waiting, System, goto, wake, wake_all}
use linux_like_os.Synch.Invariant.{Inv}

pub park-Inv :
    {s : System} (t : ℕ)
    → s.pc t ≡ parking
    → Inv s
    → Inv (record s { cv = cv_wait_sleep t s.cv; pc = goto s.pc t waiting })
unfolding cv_wait_sleep
park-Inv {s} t at inv = record {
  bit = inv.bit;
  holder = λ u h. ground (arith, inv.holder u);
  taken = λ h. let (u, is, there) = inv.taken h in (u, is, ground (arith, there, at));
  on_lock = λ u. ground (arith, inv.on_lock u, at);
  on_cv = λ u. ground (arith, inv.on_cv u, at, occurrences-snoc u t s.cv.cv_wchan);
  parked = λ u h. ground (arith, inv.parked u, inv.parked t at);
  spinning = λ u h. ground arith;
  awake = λ h. elim (inv.awake h) [
    | inl e ↦ inl e
    | inr (u, there) ↦ inr (u, ground (arith, there, at))
  ];
}

-- Threads that slept on the condition variable are woken, the others staying there.
module _ {s : System} (inv : Inv s) where
  woken_one :
      (w : ℕ) (ts : List ℕ)
      → s.cv.cv_wchan ≡ w ∷ ts
      → Inv (record s { cv = record (s.cv) { cv_wchan = ts }; pc = goto s.pc w trying })
  unfolding occurrences
  woken_one w ts first =
      let asleep : s.pc w ≡ waiting = ground (arith, inv.on_cv w, ap (occurrences w) first) in
      record {
        bit = inv.bit;
        holder = λ u h. ground (arith, inv.holder u);
        taken = λ h. let (u, is, there) = inv.taken h in (u, is, ground (arith, there, asleep));
        on_lock = λ u. ground (arith, inv.on_lock u, asleep);
        on_cv = λ u. ground (arith, inv.on_cv u, asleep, ap (occurrences u) first);
        parked = λ u h. ground (arith, inv.parked u);
        spinning = λ u h. ground (arith, inv.spinning u h, asleep);
        awake = λ h. inr (w, ground arith);
      }

  pub signal-Inv :
      (t : ℕ) (woken : Option ℕ) (cv' : Cv)
      → cv_signal t s.cv s.lock ≡ ok (woken, cv')
      → Inv (record s { cv = cv'; pc = wake woken s.pc })
  unfolding cv_signal
  signal-Inv t woken cv' run = elim (List-cases s.cv.cv_wchan) [
    | inl none_waits ↦
        let gone : woken ≡ none = ground (arith, none_waits, run) in
        let cv_is : cv' ≡ s.cv = ground (arith, none_waits, run) in rw (gone, cv_is) inv
    | inr (w, ts, first) ↦
        let gone : woken ≡ some w = ground (arith, first, run) in
        let cv_is : cv' ≡ record (s.cv) { cv_wchan = ts } = ground (arith, first, run) in
        rw (gone, cv_is) (woken_one w ts first)
  ]

woken_all :
    (ts : List ℕ) (s : System)
    → s.cv.cv_wchan ≡ ts
    → Inv s
    → Inv (record s { cv = record (s.cv) { cv_wchan = [] }; pc = wake_all ts s.pc })
woken_all [] s whole inv =
    subst (λ c. Inv (record s { cv = record (s.cv) { cv_wchan = c } })) whole inv
woken_all (w ∷ ts) s whole inv =
    woken_all ts (record s { cv = record (s.cv) { cv_wchan = ts }; pc = goto s.pc w trying }) refl
      (woken_one inv w ts whole)

pub broadcast-Inv :
    {s : System} (t : ℕ) (woken : List ℕ) (cv' : Cv)
    → cv_broadcast t s.cv s.lock ≡ ok (woken, cv')
    → Inv s
    → Inv (record s { cv = cv'; pc = wake_all woken s.pc })
unfolding cv_broadcast
broadcast-Inv {s} t woken cv' run inv =
    let all : woken ≡ s.cv.cv_wchan = ground (arith, run) in
    let cv_is : cv' ≡ record (s.cv) { cv_wchan = [] } = ground (arith, run) in
    rw (all, cv_is) (woken_all s.cv.cv_wchan s refl inv)
