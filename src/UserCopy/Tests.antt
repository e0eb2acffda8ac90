-- ===== src/UserCopy/Tests.antt =====
-- The copies at a short string in a memory of two characters.
use linux_like_os.Prelude.{
  ℕ, ◌+◌, ◌-◌, ◌≤◌, ◌<◌, ◌≡◌, refl, ◌≢◌, inl, inr, ◌&&◌, Option, none, some, [], ◌∷◌, arith, ltb,
  ◌==◌, if◌then◌else◌, efault, done, fail,
}
use linux_like_os.UserCopy.{userspacetop, copyin, copyout, copyinstr}
use linux_like_os.UserCopy.Confined.{
  SameForUser, copyin-user_only, copyout-confined, copyinstr-string,
}

-- "hi" at address 4096, and two kernels with different bytes.
abbrev hi : ℕ → ℕ
hi i = if i == 0 then 104 else if i == 1 then 105 else 0

abbrev user_memory : ℕ → Option ℕ
user_memory a = if ltb 4095 a && ltb a 8192 then some (hi (a - 4096)) else none

abbrev with_kernel : ℕ → ℕ → Option ℕ
with_kernel b a = if ltb a userspacetop then user_memory a else some b

same_kernel : SameForUser (with_kernel 1) (with_kernel 2)
same_kernel a h = ground arith

copyin-user_only_example : copyin 4096 2 (with_kernel 1) ≡ copyin 4096 2 (with_kernel 2)
copyin-user_only_example =
    copyin-user_only 2 4096 (omega arith) (omega arith) (with_kernel 1) (with_kernel 2) same_kernel

copyout-confined_example : (copyout (7 ∷ []) 4096 user_memory).1 4097 ≡ user_memory 4097
copyout-confined_example =
    copyout-confined (7 ∷ []) 4096 user_memory 4097 (omega arith) (omega arith)
      (inr (inl (omega arith)))

copyinstr-string_example : copyinstr 4096 9 user_memory ≡ done (104 ∷ 105 ∷ 0 ∷ [])
copyinstr-string_example =
    copyinstr-string 4096 9 2 user_memory hi (omega arith) (omega arith) (omega arith) there before
      refl
  where
    there : (k : ℕ) → k ≤ 2 → user_memory (4096 + k) ≡ some (hi k)
    there k h = let back : 4096 + k - 4096 ≡ k = omega arith in ground (arith, back)

    before : (k : ℕ) → k < 2 → hi k ≢ 0
    before k h x = ground (arith, x)

-- A length of zero is refused, and the bytes arrive.
copy_nothing : copyin 4096 0 user_memory ≡ fail efault
unfolding copyin
copy_nothing = refl

copy_two : copyin 4096 2 user_memory ≡ done (104 ∷ 105 ∷ [])
unfolding copyin
copy_two = refl
