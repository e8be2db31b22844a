-- ===== src/Timeval.antt =====
-- `struct timeval` and the macros of sys/time.h on it. Seconds and microseconds are natural numbers:
-- the times of the program are not before the epoch.
use gnu_gzochi.Base.{
  ℕ, ◌+◌, ◌-◌, ◌*◌, ◌≤◌, ◌<◌, ◌≡◌, Bool, true, false, arith, ltb, leb, ◌==◌, if◌then◌else◌,
}

pub record Timeval : Type 0 where
  pub tv_sec : ℕ
  pub tv_usec : ℕ

abbrev pub IsNormal : Timeval → Type 0
IsNormal t = t.tv_usec < 1_000_000

-- The number of microseconds.
abbrev pub usecs : Timeval → ℕ
usecs t = t.tv_sec * 1_000_000 + t.tv_usec

-- `timercmp (a, b, <)`.
unfoldable pub timer_lt : Timeval → Timeval → Bool
timer_lt a b = if a.tv_sec == b.tv_sec then ltb a.tv_usec b.tv_usec else ltb a.tv_sec b.tv_sec

-- `timercmp (a, b, >)`.
unfoldable pub timer_gt : Timeval → Timeval → Bool
timer_gt a b = if a.tv_sec == b.tv_sec then ltb b.tv_usec a.tv_usec else ltb b.tv_sec a.tv_sec

-- `timersub (a, b, &r)`, for a difference that is not negative.
unfoldable pub timer_sub : Timeval → Timeval → Timeval
timer_sub a b =
    if leb b.tv_usec a.tv_usec
    then record { tv_sec = a.tv_sec - b.tv_sec; tv_usec = a.tv_usec - b.tv_usec }
    else record { tv_sec = a.tv_sec - b.tv_sec - 1; tv_usec = a.tv_usec + 1_000_000 - b.tv_usec }

abbrev pub timer_zero : Timeval
timer_zero = record { tv_sec = 0; tv_usec = 0 }

pub timer_lt→lt :
    (a b : Timeval) → IsNormal a → IsNormal b → timer_lt a b ≡ true → usecs a < usecs b
unfolding timer_lt
timer_lt→lt a b na nb h = ground arith

pub timer_gt→lt :
    (a b : Timeval) → IsNormal a → IsNormal b → timer_gt a b ≡ true → usecs b < usecs a
unfolding timer_gt
timer_gt→lt a b na nb h = ground arith

pub lt→timer_gt :
    (a b : Timeval) → IsNormal a → IsNormal b → usecs b < usecs a → timer_gt a b ≡ true
unfolding timer_gt
lt→timer_gt a b na nb h = ground arith

pub usecs-timer_sub :
    (a b : Timeval)
    → IsNormal a
    → IsNormal b
    → usecs b ≤ usecs a
    → (usecs (timer_sub a b) ≡ usecs a - usecs b) × IsNormal (timer_sub a b)
unfolding timer_sub
usecs-timer_sub a b na nb h = ground arith

pub not-timer_gt→le :
    (a b : Timeval) → IsNormal a → IsNormal b → timer_gt a b ≡ false → usecs a ≤ usecs b
unfolding timer_gt
not-timer_gt→le a b na nb h = ground arith

pub timer_lt_irrefl : (a : Timeval) → timer_lt a a ≡ false
unfolding timer_lt
timer_lt_irrefl a = ground arith

pub timer_lt_later :
    (a b c : Timeval) → timer_lt b c ≡ true → timer_lt a c ≡ false → timer_lt a b ≡ false
unfolding timer_lt
timer_lt_later a b c h k = ground arith

pub timer_lt_weak :
    (a b c : Timeval) → timer_lt b c ≡ false → timer_lt a b ≡ false → timer_lt a c ≡ false
unfolding timer_lt
timer_lt_weak a b c h k = ground arith
