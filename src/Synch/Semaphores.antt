-- ===== src/Synch/Semaphores.antt =====
-- Threads that share a semaphore, as a step relation.
use linux_like_os.Prelude.{
  ℕ, zero, suc, ◌+◌, ◌^◌, ◌≤◌, ◌<◌, ◌≡◌, refl, ◌⊎◌, inl, inr, true, Option, none, some, List, [],
  ◌∷◌, arith, ℕ_discrete, if◌then◌else◌, List-cases, length, get_elem?, get_or, get_elem?-some, ok,
}
use linux_like_os.Synch.{Semaphore, sem_create, p_attempt, v}

-- The semaphore, the threads in P that are awake, and how many calls of V and of P have returned.
pub record Users : Type 0 where
  pub sem : Semaphore
  pub awake : List ℕ
  pub ups : ℕ
  pub downs : ℕ

abbrev pub fresh : ℕ → Users
fresh n = record { sem = sem_create n; awake = []; ups = 0; downs = 0 }

abbrev pub remove_at : ℕ → List ℕ → List ℕ
remove_at i [] = []
remove_at zero (x ∷ xs) = xs
remove_at (suc i) (x ∷ xs) = x ∷ remove_at i xs

abbrev pub roused : Option ℕ → List ℕ → List ℕ
roused none ts = ts
roused (some t) ts = t ∷ ts

-- Thread `t`, the `i`-th of those awake, makes one round of the loop of P.
abbrev pub tried : (t i : ℕ) → Users → Users
tried t i s =
    let (through, sem') = p_attempt t s.sem in
    record s {
      sem = sem';
      awake = remove_at i s.awake;
      downs = if through then s.downs + 1 else s.downs;
    }

pub data UserStep (s : Users) : Users → Type 0 where
  enter : (t : ℕ) → UserStep s (record s { awake = t ∷ s.awake })
  try_p : (t i : ℕ) → get_elem? s.awake i ≡ some t → UserStep s (tried t i s)
  up :
      {woken : Option ℕ} {sem' : Semaphore}
      → v s.sem ≡ ok (woken, sem')
      → UserStep s (record s { sem = sem'; awake = roused woken s.awake; ups = s.ups + 1 })

pub data UserReach (s : Users) : Users → Type 0 where
  begin : UserReach s s
  after : {u w : Users} → UserReach s u → UserStep u w → UserReach s w

-- The count is what is left, and there are enough threads awake to take it while others sleep.
record UserInv (n : ℕ) (s : Users) : Type 0 where
  balance : s.sem.sem_count + s.downs ≡ n + s.ups
  word : s.sem.sem_count < 2 ^ 32
  served : (s.sem.sem_wchan ≡ []) ⊎ (s.sem.sem_count ≤ length s.awake)

length-remove_at :
    (i : ℕ) (xs : List ℕ) {x : ℕ}
    → get_elem? xs i ≡ some x
    → length (remove_at i xs) + 1 ≡ length xs
length-remove_at i [] h = ground arith
length-remove_at zero (x ∷ xs) h = omega arith
length-remove_at (suc i) (x ∷ xs) h = omega (arith, length-remove_at i xs h)

attempt-UserInv :
    {n : ℕ} {s : Users} (t i : ℕ)
    → get_elem? s.awake i ≡ some t
    → UserInv n s
    → UserInv n (tried t i s)
unfolding p_attempt
attempt-UserInv {n} {s} t i at inv = elim (ℕ_discrete s.sem.sem_count 0) [
  | yes empty ↦ record {
    balance = ground (arith, inv.balance, empty);
    word = ground (arith, empty);
    served = inr (ground (arith, empty));
  }
  | no some_left ↦ record {
    balance = ground (arith, inv.balance, some_left);
    word = ground (arith, inv.word);
    served = ground (arith, inv.served, length-remove_at i s.awake at, some_left);
  }
]

up-UserInv :
    {n : ℕ} {s : Users} (woken : Option ℕ) (sem' : Semaphore)
    → v s.sem ≡ ok (woken, sem')
    → UserInv n s
    → UserInv n (record s { sem = sem'; awake = roused woken s.awake; ups = s.ups + 1 })
unfolding v
up-UserInv {n} {s} woken sem' run inv = elim (List-cases s.sem.sem_wchan) [
  | inl nobody ↦ record {
    balance = ground (arith, run, nobody, inv.balance, inv.word);
    word = ground (arith, run, nobody);
    served = inl (ground (arith, run, nobody));
  }
  | inr (w, ts, first) ↦ record {
    balance = ground (arith, run, first, inv.balance, inv.word);
    word = ground (arith, run, first);
    served = ground (arith, run, first, inv.served);
  }
]

UserStep-UserInv : {n : ℕ} {s u : Users} → UserStep s u → UserInv n s → UserInv n u
UserStep-UserInv (enter t) inv = record {
  balance = inv.balance;
  word = inv.word;
  served = ground (arith, inv.served);
}
UserStep-UserInv (try_p t i at) inv = attempt-UserInv t i at inv
UserStep-UserInv (up {woken} {sem'} run) inv = up-UserInv woken sem' run inv

UserReach-UserInv : {n : ℕ} {s : Users} → n < 2 ^ 32 → UserReach (fresh n) s → UserInv n s
UserReach-UserInv small begin = record { balance = omega arith; word = small; served = inl refl }
UserReach-UserInv small (after r st) = UserStep-UserInv st (UserReach-UserInv small r)

-- A semaphore made with count `n` below 2^32, in every state that its users reach: the count is `n`
-- and the returned calls of V, less the returned calls of P. So never more of P return than that.
pub p-v :
    (n : ℕ) (s : Users)
    → n < 2 ^ 32
    → UserReach (fresh n) s
    → (s.sem.sem_count + s.downs ≡ n + s.ups) × (s.downs ≤ n + s.ups)
p-v n s small reached =
    let inv = UserReach-UserInv small reached in (inv.balance, omega (arith, inv.balance))

-- No wakeup is lost: while the count is not 0 and a thread sleeps in P, another is awake in P, and
-- its next round gets through.
pub v-wakes :
    (n : ℕ) (s : Users) (w : ℕ) (ts : List ℕ)
    → n < 2 ^ 32
    → UserReach (fresh n) s
    → 0 < s.sem.sem_count
    → s.sem.sem_wchan ≡ w ∷ ts
    → (t : ℕ) × (i : ℕ) × UserStep s (tried t i s) × ((p_attempt t s.sem).0 ≡ true)
unfolding p_attempt
v-wakes n s w ts small reached some_left sleeps =
    let inv = UserReach-UserInv small reached in
    let enough : s.sem.sem_count ≤ length s.awake = ground (arith, inv.served, sleeps) in
    let first = get_or s.awake 0 0 in
    let there = get_elem?-some s.awake 0 0 (omega arith) in
    (first, 0, try_p first 0 there, ground (arith, some_left))
