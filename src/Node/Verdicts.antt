-- ===== src/Node/Verdicts.antt =====
-- What a verdict of a run says about the run.
use pigeon_oj.Base.{ℕ, ◌*◌, ◌≡◌, not, ◌&&◌, arith, ltb, ◌==◌}
use pigeon_oj.Node.{
  RunStatus, Measured, is_ok, is_accepted, failed, over, is_cpu_tle, run_status, spj_verdict,
}

-- A run is judged as ok exactly when it was not stopped for its time, took no more time, memory and output
-- than its limits, was not killed for its processor time, and ended with exit code 0.
pub ok_run_within_limits :
    (time_limit_ms memory_limit_mb output_limit : ℕ) (m : Measured)
    → is_ok (run_status time_limit_ms memory_limit_mb output_limit m) ≡ (
        not m.timed_out
        && (not (ltb time_limit_ms m.elapsed_ms)
            && (not (is_cpu_tle m.returncode)
                && (not (over m.memory_kb (memory_limit_mb * 1024))
                    && (not m.output_exceeded
                        && (not (ltb output_limit m.stdout_length)
                            && (not (ltb output_limit m.stderr_length)
                                && not (failed m.returncode))))))))
unfolding run_status
ok_run_within_limits time_limit_ms memory_limit_mb output_limit m = ground arith

-- A checker accepts exactly when it ran well and ended with exit code 0, whatever other code it could end
-- with.
pub checker_accepts :
    (status : RunStatus) (exit_code : ℕ)
    → is_accepted (spj_verdict status exit_code) ≡ (is_ok status && (exit_code == 0))
unfolding spj_verdict
checker_accepts status exit_code = ground arith
