-- ===== src/Controller/EndOfRun/Timeout.antt =====
-- The timeout of a run in internal/controller/certsuiterun_controller.go: how its text is read, and the
-- sum with the two minutes, which is an `int64`.
use cnf_certsuite_operator.Prelude.{
  ℕ, ◌+◌, ◌*◌, ◌^◌, ◌≤◌, ◌<◌, String, ◌<>◌, ◌≡◌, true, some, arith, ltb, if◌then◌else◌,
}
use cnf_certsuite_operator.Prelude.Decimal.{decimal}
use cnf_certsuite_operator.Prelude.Int.{pos, ◌+ℤ◌, wrap_int64}
use cnf_certsuite_operator.Duration.{second, minute, hour, parse_duration, sub_time}
use cnf_certsuite_operator.Duration.Printed.{
  parse_duration-seconds, parse_duration-minutes, parse_duration-hours,
}
use cnf_certsuite_operator.Controller.EndOfRun.{get_job_run_time_threshold, is_overdue}
use cnf_certsuite_operator.Controller.EndOfRun.Outcome.{threshold-parsed}

module _ (fraction : ℕ → ℕ → ℕ → ℕ) where
  -- A number of hours below 2^63 nanoseconds, printed in decimal with the unit `h`, is read as so many
  -- hours; with the unit `m` as so many minutes, and with the unit `s` as so many seconds.
  pub get_job_run_time_threshold-decimal :
      (n : ℕ)
      → n * hour < 2 ^ 63
      → (get_job_run_time_threshold fraction (decimal n <> "h") ≡ pos (n * hour))
        × (get_job_run_time_threshold fraction (decimal n <> "m") ≡ pos (n * minute))
        × (get_job_run_time_threshold fraction (decimal n <> "s") ≡ pos (n * second))
  get_job_run_time_threshold-decimal n small = (
    threshold-parsed fraction _ _ (parse_duration-hours fraction n small),
    threshold-parsed fraction _ _ (parse_duration-minutes fraction n (omega (arith, small))),
    threshold-parsed fraction _ _ (parse_duration-seconds fraction n (omega (arith, small))),
  )

  -- For a container that started at most 292 years ago, and a timeout of any length that is not negative:
  -- if the timeout and two minutes are in the range of `int64`, the run is overdue exactly when
  -- they have passed since its start; and beyond that range it is overdue at once.
  pub is_overdue-wraps :
      (time started_at d : ℕ) (timeout : String)
      → parse_duration fraction timeout ≡ some (pos d)
      → d < 2 ^ 63
      → started_at ≤ time
      → time < started_at + 2 ^ 63
      → is_overdue fraction time started_at timeout
        ≡ (if ltb (d + 2 * minute) (2 ^ 63) then ltb (started_at + d + 2 * minute) time else true)
  unfolding is_overdue ◌+ℤ◌ wrap_int64 sub_time
  is_overdue-wraps time started_at d timeout parsed small past near =
      rw (threshold-parsed fraction timeout (pos d) parsed) (ground arith)
