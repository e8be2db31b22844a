-- ===== src/Tx/Timeout.antt =====
-- gzochi-server/src/tx.c: `time_remaining` and the timeout test, against elapsed microseconds.
use gnu_gzochi.Base.{◌-◌, ◌≤◌, ◌≡◌, ◌↔◌, true, some, arith, Bool-cases, inl, inr}
use gnu_gzochi.Timeval.{
  Timeval, IsNormal, usecs, timer_sub, timer_gt, timer_gt→lt, not-timer_gt→le, usecs-timer_sub,
}
use gnu_gzochi.Tx.{Timing, time_remaining, is_timed_out}

module _ (start now timeout : Timeval) (normal_start : IsNormal start) (normal_now : IsNormal now)
    (normal_timeout : IsNormal timeout) (started : usecs start ≤ usecs now) where
  abbrev timing : Timing
  timing = record { start_time = start; timeout = some timeout }

  -- The time that remains is the timeout less the time elapsed since the start, and nothing once
  -- that much has elapsed; it is a normal `timeval`.
  pub usecs-time_remaining :
      (usecs (time_remaining timing now) ≡ usecs timeout - (usecs now - usecs start))
      × IsNormal (time_remaining timing now)
  unfolding time_remaining
  usecs-time_remaining =
      let elapsed = timer_sub now start in
      let (value, normal) = usecs-timer_sub now start normal_now normal_start started in
      elim (Bool-cases (timer_gt elapsed timeout)) [
        | inl over ↦
            rw over (omega (arith, timer_gt→lt elapsed timeout normal normal_timeout over, value))
        | inr left ↦
            let enough = not-timer_gt→le elapsed timeout normal normal_timeout left in
            rw left
              (omega (arith, usecs-timer_sub timeout elapsed normal_timeout normal enough, value))
      ]

  -- A transaction with a timeout counts as timed out exactly from the moment at which the timeout
  -- has elapsed since its start.
  pub is_timed_out_iff :
      (is_timed_out timing now ≡ true) ↔ (usecs timeout ≤ usecs now - usecs start)
  unfolding is_timed_out
  is_timed_out_iff = ground (arith, usecs-time_remaining)
