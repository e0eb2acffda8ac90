-- ===== src/Time.antt =====
-- kern/lib/time.c: sums and differences of times. The numbers are integers: signed overflow of the
-- seconds is undefined behaviour, and two normal counts of nanoseconds have a sum below 2^31.
pub mod Laws
use linux_like_os.Prelude.{if◌then◌else◌}
use linux_like_os.Prelude.Int.{ℤ, pos, ◌+ℤ◌, ◌-ℤ◌, ltb_ℤ}

-- `struct timespec`
pub record Timespec : Type 0 where
  pub tv_sec : ℤ
  pub tv_nsec : ℤ

abbrev pub second : ℤ
second = pos 1000000000

unfoldable pub timespec_add : (ts1 ts2 : Timespec) → Timespec
timespec_add ts1 ts2 =
    let nsec = ts1.tv_nsec +ℤ ts2.tv_nsec in
    let sec = ts1.tv_sec +ℤ ts2.tv_sec in
    if ltb_ℤ nsec second
    then record { tv_sec = sec; tv_nsec = nsec }
    else record { tv_sec = sec +ℤ pos 1; tv_nsec = nsec -ℤ second }

unfoldable pub timespec_sub : (ts1 ts2 : Timespec) → Timespec
timespec_sub ts1 ts2 =
    if ltb_ℤ ts1.tv_nsec ts2.tv_nsec
    then record {
      tv_sec = ts1.tv_sec -ℤ pos 1 -ℤ ts2.tv_sec;
      tv_nsec = ts1.tv_nsec +ℤ second -ℤ ts2.tv_nsec;
    }
    else record { tv_sec = ts1.tv_sec -ℤ ts2.tv_sec; tv_nsec = ts1.tv_nsec -ℤ ts2.tv_nsec }
