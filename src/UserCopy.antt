-- ===== src/UserCopy.antt =====
-- kern/vm/copyinout.c: copies between the kernel and user addresses. User memory gives the byte at
-- an address, or `none` where the access faults; a fault ends the copy with EFAULT, which is what
-- the setjmp around it does.
pub mod Confined
mod Tests
use linux_like_os.Prelude.{
  ℕ, zero, suc, ◌+◌, ◌-◌, ◌%◌, ◌^◌, Bool, true, false, Option, none, some, List, [], ◌∷◌, ltb, leb,
  ◌==◌, if◌then◌else◌, length, efault, enametoolong, Reply, done, fail,
}

-- The first address of the kernel.
abbrev pub userspacetop : ℕ
userspacetop = 2 ^ 31

-- The length up to the kernel's addresses, with the sum in 32 bits.
unfoldable pub copycheck : (userptr len : ℕ) → Reply ℕ
copycheck userptr len =
    let top = (userptr + len + 2 ^ 32 - 1) % 2 ^ 32 in
    if ltb top userptr
    then fail efault
    else if leb userspacetop userptr
    then fail efault
    else done (if leb userspacetop top then userspacetop - userptr else len)

-- memcpy from user memory; `none` is a fault.
unfoldable pub read_bytes : (len a : ℕ) → (ℕ → Option ℕ) → Option (List ℕ)
read_bytes zero a user = some []
read_bytes (suc n) a user = elim (user a) [
  | none ↦ none
  | some b ↦ elim (read_bytes n (a + 1) user) [ none ↦ none | some bs ↦ some (b ∷ bs) ]
]

unfoldable pub copyin : (usersrc len : ℕ) → (ℕ → Option ℕ) → Reply (List ℕ)
unfolding copycheck read_bytes
copyin usersrc len user = elim (copycheck usersrc len) [
  | fail e ↦ fail e
  | done stoplen ↦
      if stoplen == len
      then elim (read_bytes len usersrc user) [ none ↦ fail efault | some bytes ↦ done bytes ]
      else fail efault
]

-- memcpy to user memory: the memory afterwards, and whether it came to the end.
unfoldable pub write_bytes : List ℕ → (a : ℕ) → (ℕ → Option ℕ) → Bool × (ℕ → Option ℕ)
write_bytes [] a user = (true, user)
write_bytes (b ∷ bs) a user = elim (user a) [
  | none ↦ (false, user)
  | some old ↦ write_bytes bs (a + 1) (λ x. if x == a then some b else user x)
]

unfoldable pub copyout :
    (src : List ℕ) → (userdest : ℕ) → (ℕ → Option ℕ) → Reply (Unit {0}) × (ℕ → Option ℕ)
unfolding copycheck write_bytes
copyout src userdest user = elim (copycheck userdest (length src)) [
  | fail e ↦ (fail e, user)
  | done stoplen ↦
      if stoplen == length src
      then (
        if (write_bytes src userdest user).0 then done tt else fail efault,
        (write_bytes src userdest user).1,
      )
      else (fail efault, user)
]

-- The loop of copystr from index `i` on, with the rounds left; `src` gives the characters.
unfoldable pub copystr_loop : (rounds i maxlen stoplen : ℕ) → (src : ℕ → Option ℕ) → Reply (List ℕ)
copystr_loop zero i maxlen stoplen src =
    if ltb stoplen maxlen then fail efault else fail enametoolong
copystr_loop (suc n) i maxlen stoplen src =
    let rest = copystr_loop n (i + 1) maxlen stoplen src in
    if ltb i stoplen
    then elim (src i) [
      | none ↦ fail efault
      | some c ↦
          if c == 0 then done (c ∷ []) else elim rest [ fail e ↦ fail e | done cs ↦ done (c ∷ cs) ]
    ]
    else if ltb stoplen maxlen
    then fail efault
    else fail enametoolong

-- The characters with the zero at the end; their number is `gotlen`.
unfoldable pub copystr : (src : ℕ → Option ℕ) → (maxlen stoplen : ℕ) → Reply (List ℕ)
unfolding copystr_loop
copystr src maxlen stoplen = copystr_loop maxlen 0 maxlen stoplen src

unfoldable pub copyinstr : (usersrc len : ℕ) → (ℕ → Option ℕ) → Reply (List ℕ)
unfolding copycheck copystr
copyinstr usersrc len user = elim (copycheck usersrc len) [
  | fail e ↦ fail e
  | done stoplen ↦ copystr (λ i. user (usersrc + i)) len stoplen
]
