-- ===== src/UserCopy/Confined.antt =====
-- The copies stay below the kernel's addresses.
use linux_like_os.Prelude.{
  ℕ, zero, suc, ◌+◌, ◌-◌, ◌%◌, ◌^◌, ◌≤◌, ◌<◌, ◌≡◌, refl, sym, subst, ◌≢◌, ◌⊎◌, inl, inr, Option,
  some, List, [], ◌∷◌, arith, dec_lt, ℕ_discrete, ◌==◌, if◌then◌else◌, Option-cases, length, done,
  Reply-cases,
}
use linux_like_os.UserCopy.{
  userspacetop, copycheck, read_bytes, copyin, write_bytes, copyout, copystr_loop, copystr,
  copyinstr,
}

-- Two memories that a user process cannot tell apart.
abbrev pub SameForUser : (u v : ℕ → Option ℕ) → Type 0
SameForUser u v = (a : ℕ) → a < userspacetop → u a ≡ v a

-- What copycheck lets through ends below the kernel.
copycheck_lem :
    (userptr len : ℕ) {stop : ℕ}
    → userptr < 2 ^ 32
    → len < 2 ^ 32
    → copycheck userptr len ≡ done stop
    → userptr + stop ≤ userspacetop
unfolding copycheck
copycheck_lem userptr len lo hi h = ground arith

read_bytes-same :
    (u v : ℕ → Option ℕ) (len a : ℕ)
    → SameForUser u v
    → a + len ≤ userspacetop
    → read_bytes len a u ≡ read_bytes len a v
unfolding read_bytes
read_bytes-same u v zero a same below = refl
read_bytes-same u v (suc n) a same below =
    ground (arith, same a (omega arith), read_bytes-same u v n (a + 1) same (omega arith))

copystr_loop-same :
    (u v : ℕ → Option ℕ) (n i maxlen stoplen : ℕ)
    → ((k : ℕ) → k < stoplen → u k ≡ v k)
    → copystr_loop n i maxlen stoplen u ≡ copystr_loop n i maxlen stoplen v
unfolding copystr_loop
copystr_loop-same u v zero i maxlen stoplen same = refl
copystr_loop-same u v (suc n) i maxlen stoplen same = elim (dec_lt i stoplen) [
  | yes lt ↦ ground (arith, same i lt, copystr_loop-same u v n (i + 1) maxlen stoplen same)
  | no ge ↦ ground arith
]

module _ (len : ℕ) (userptr : ℕ) (in_word : userptr < 2 ^ 32) (len_in_word : len < 2 ^ 32) where
  -- Whether copyin succeeds, and with which bytes, depends on no byte of the kernel: two memories
  -- that agree below USERSPACETOP give the same result.
  pub copyin-user_only :
      (u v : ℕ → Option ℕ) → SameForUser u v → copyin userptr len u ≡ copyin userptr len v
  unfolding copyin
  copyin-user_only u v same = elim (Reply-cases (copycheck userptr len)) [
    | inl (stop, checked) ↦ elim (ℕ_discrete stop len) [
      | yes whole ↦
          let below = copycheck_lem userptr len in_word len_in_word checked in
          ground (arith, checked, read_bytes-same u v len userptr same (omega arith))
      | no ne ↦ ground (arith, checked)
    ]
    | inr (e, checked) ↦ ground (arith, checked)
  ]

  -- The same of copyinstr: it reads no character at or above USERSPACETOP.
  copyinstr-user_only :
      (u v : ℕ → Option ℕ) → SameForUser u v → copyinstr userptr len u ≡ copyinstr userptr len v
  unfolding copyinstr copystr
  copyinstr-user_only u v same = elim (Reply-cases (copycheck userptr len)) [
    | inl (stop, checked) ↦
        let below = copycheck_lem userptr len in_word len_in_word checked in
        let loops =
          copystr_loop-same (λ i. u (userptr + i)) (λ i. v (userptr + i)) len 0 len stop
            (λ k lt. same (userptr + k) (omega arith)) in
        ground (arith, checked, loops)
    | inr (e, checked) ↦ ground (arith, checked)
  ]

-- A write of bytes changes nothing outside its range.
write_bytes-outside :
    (bs : List ℕ) (a : ℕ) (user : ℕ → Option ℕ) (x : ℕ)
    → (x < a) ⊎ (a + length bs ≤ x)
    → (write_bytes bs a user).1 x ≡ user x
unfolding write_bytes
write_bytes-outside [] a user x out = refl
write_bytes-outside (b ∷ bs) a user x out = elim (Option-cases (user a)) [
  | inl fault ↦ ground (arith, fault)
  | inr (old, there) ↦ ground (
    arith,
    there,
    write_bytes-outside bs (a + 1) (λ y. if y == a then some b else user y) x (omega arith),
  )
]

-- copyout, also one that fails in the middle, changes no memory outside the range that it was
-- asked to write, and none of the kernel's.
pub copyout-confined :
    (src : List ℕ) (userdest : ℕ) (user : ℕ → Option ℕ) (x : ℕ)
    → userdest < 2 ^ 32
    → length src < 2 ^ 32
    → (x < userdest) ⊎ (userdest + length src ≤ x) ⊎ (userspacetop ≤ x)
    → (copyout src userdest user).1 x ≡ user x
unfolding copyout
copyout-confined src userdest user x in_word len_in_word out =
    elim (Reply-cases (copycheck userdest (length src))) [
      | inl (stop, checked) ↦ elim (ℕ_discrete stop (length src)) [
        | yes whole ↦
            let below = copycheck_lem userdest (length src) in_word len_in_word checked in
            ground (arith, checked, write_bytes-outside src userdest user x (omega arith))
        | no ne ↦ ground (arith, checked)
      ]
      | inr (e, checked) ↦ ground (arith, checked)
    ]

-- The characters of a string from index `i` on.
abbrev pub chars_from : (n i : ℕ) → (ℕ → ℕ) → List ℕ
chars_from zero i c = []
chars_from (suc n) i c = c i ∷ chars_from n (i + 1) c

copystr_loop-string :
    (src : ℕ → Option ℕ) (c : ℕ → ℕ) (maxlen stoplen n i m : ℕ)
    → m < n
    → i + m < stoplen
    → ((k : ℕ) → i ≤ k → k ≤ i + m → src k ≡ some (c k))
    → ((k : ℕ) → i ≤ k → k < i + m → c k ≢ 0)
    → c (i + m) ≡ 0
    → copystr_loop n i maxlen stoplen src ≡ done (chars_from (m + 1) i c)
unfolding copystr_loop
copystr_loop-string src c maxlen stoplen zero i m room inside there before last =
    absurd (omega arith)
copystr_loop-string src c maxlen stoplen (suc n) i zero room inside there before last =
    let here : i + 0 ≡ i = omega arith in
    ground (arith, there i (omega arith) (omega arith), subst (λ k. c k ≡ 0) here last)
copystr_loop-string src c maxlen stoplen (suc n) i (suc m) room inside there before last =
    let next : i + suc m ≡ i + 1 + m = omega arith in
    let more : suc m + 1 ≡ suc (m + 1) = omega arith in
    let rest =
      copystr_loop-string src c maxlen stoplen n (i + 1) m (omega arith) (omega arith)
        (λ k lo hi. there k (omega arith) (omega arith))
        (λ k lo hi. before k (omega arith) (omega arith)) (subst (λ k. c k ≡ 0) next last) in
    subst (λ t. copystr_loop (suc n) i maxlen stoplen src ≡ done (chars_from t i c)) (sym more)
      (ground
        (arith, there i (omega arith) (omega arith), before i (omega arith) (omega arith), rest))

-- copyinstr of a string that ends below USERSPACETOP, with all of its characters in memory that can
-- be read, and into a buffer that holds it with its zero, gives the string and its zero.
pub copyinstr-string :
    (usersrc len m : ℕ) (user : ℕ → Option ℕ) (c : ℕ → ℕ)
    → m < len
    → usersrc + m < userspacetop
    → usersrc + len ≤ 2 ^ 32
    → ((k : ℕ) → k ≤ m → user (usersrc + k) ≡ some (c k))
    → ((k : ℕ) → k < m → c k ≢ 0)
    → c m ≡ 0
    → copyinstr usersrc len user ≡ done (chars_from (m + 1) 0 c)
unfolding copyinstr copystr copycheck
copyinstr-string usersrc len m user c room below word there before last =
    let top : (usersrc + len + 2 ^ 32 - 1) % 2 ^ 32 ≡ usersrc + len - 1 = omega arith in
    let sum : m ≡ 0 + m = omega arith in
    let loops : (stop : ℕ)
        → m < stop
        → copystr_loop len 0 len stop (λ i. user (usersrc + i)) ≡ done (chars_from (m + 1) 0 c) =
      λ stop lt.
        copystr_loop-string (λ i. user (usersrc + i)) c len stop len 0 m room (omega arith)
          (λ k lo hi. there k (omega arith)) (λ k lo hi. before k (omega arith))
          (subst (λ k. c k ≡ 0) sum last) in
    elim (dec_lt (usersrc + len - 1) userspacetop) [
      | yes lt ↦ ground (arith, top, loops len room)
      | no ge ↦ ground (arith, top, loops (userspacetop - usersrc) (omega arith))
    ]
