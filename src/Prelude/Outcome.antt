-- ===== src/Prelude/Outcome.antt =====
-- How a kernel operation ends: it returns, or the kernel stops in a failed KASSERT, a panic()
-- or an access outside an array. An error code is a value that an operation returns.
use Prim.Native.Nat.{ℕ}
use mathlib.Core.Path.{◌≡◌, refl}
use mathlib.Core.Bool.{Bool, true, false}
use mathlib.Core.Option.{none, some}
use mathlib.Core.List.{List}
use mathlib.Core.Logic.{◌⊎◌, inl, inr}
use linux_like_os.Prelude.Lists.{get_elem?, set}

pub data Run {ℓ} (A : Type ℓ) : Type ℓ where
  ok : A → Run A
  panic : Run A

-- What follows a step that stopped the kernel does not run.
infixl 5 ◌>>=◌
abbrev pub ◌>>=◌ {ℓ κ} : {A : Type ℓ} {B : Type κ} → Run A → (A → Run B) → Run B
panic >>= rest = panic
ok a >>= rest = rest a

infixl 5 ◌>>◌
abbrev pub ◌>>◌ {ℓ} : {B : Type ℓ} → Run (Unit {0}) → Run B → Run B
panic >> rest = panic
ok u >> rest = rest

-- `KASSERT`
abbrev pub kassert : Bool → Run (Unit {0})
kassert true = ok tt
kassert false = panic

-- A read of an array element.
abbrev pub fetch {ℓ} : {A : Type ℓ} → List A → ℕ → Run A
fetch xs i = elim (get_elem? xs i) [ none ↦ panic | some a ↦ ok a ]

-- A write of an array element.
abbrev pub store {ℓ} : {A : Type ℓ} → List A → ℕ → A → Run (List A)
store xs i v = elim (get_elem? xs i) [ none ↦ panic | some _ ↦ ok (set xs i v) ]

-- `kern/errno.h`, as far as the modelled code names it. `foreign` is any code that comes from outside.
pub data Errno : Type 0 where
  enomem efault einval esrch echild enproc emfile ebadf espipe enospc eio efbig enoexec : Errno
  enametoolong eexist enoent : Errno
  foreign : ℕ → Errno

-- A result with an error code: `done` is the return value 0.
pub data Reply {ℓ} (A : Type ℓ) : Type ℓ where
  done : A → Reply A
  fail : Errno → Reply A

pub Run-cases {ℓ} : {A : Type ℓ} (r : Run A) → ((a : A) × (r ≡ ok a)) ⊎ (r ≡ panic)
Run-cases (ok a) = inl (a, refl)
Run-cases panic = inr refl

pub Reply-cases {ℓ} :
    {A : Type ℓ} (r : Reply A) → ((a : A) × (r ≡ done a)) ⊎ ((e : Errno) × (r ≡ fail e))
Reply-cases (done a) = inl (a, refl)
Reply-cases (fail e) = inr (e, refl)
