-- ===== src/Device/Qps.antt =====
-- `JudgeQpsTrend` (fs/zbd_zenfs.cc): whether the device is idle, by the rates of writes and reads in
-- two intervals of a tenth of a second. The counters themselves (fs/metrics_qps.h) are behind `Rates`.
use zenfs.Base.{ℕ, ◌/◌, Bool, true, false, ◌&&◌, ◌||◌, not, if◌then◌else◌, ltb, leb, ◌==◌, ◌%◌}
use zenfs.Base.Words.{u32, add32, mul32, sub64, mul64}

-- The members of `ZonedBlockDevice` that the judgement keeps.
pub record Trend : Type 0 where
  pub read_threshold : ℕ
  pub write_threshold : ℕ
  pub read_max : ℕ
  pub write_max : ℕ
  pub successive : ℕ
  pub fail : ℕ

-- What the two intervals counted.
pub record Rates : Type 0 where
  pub write1 : ℕ
  pub read1 : ℕ
  pub write2 : ℕ
  pub read2 : ℕ

-- The largest rate of the window; a member of 32 bits that takes a count of 64.
unfoldable pub window_max : ℕ → ℕ → ℕ → ℕ
window_max held q1 q2 =
    if ltb q1 q2
    then (if ltb held q2 then q2 % u32 else held)
    else (if ltb held q1 then q1 % u32 else held)

unfoldable pub raised : ℕ → ℕ → ℕ
raised threshold largest = if ltb threshold largest then add32 threshold largest / 2 else threshold

unfoldable pub observe : Rates → Trend → Trend
unfolding window_max
observe q t = record t {
  write_max = window_max t.write_max q.write1 q.write2;
  read_max = window_max t.read_max q.read1 q.read2;
}

-- After five failures the thresholds rise, and the window begins again.
unfoldable pub raise_thresholds : Trend → Trend
unfolding raised
raise_thresholds t =
    if leb 5 t.fail
    then record t {
      write_threshold = raised t.write_threshold t.write_max;
      read_threshold = raised t.read_threshold t.read_max;
      write_max = 0;
      read_max = 0;
      fail = 0;
    }
    else t

-- After five successes in a row they are as at the start.
unfoldable pub reset_thresholds : Trend → Trend
reset_thresholds t =
    if (not (t.write_threshold == 76) || not (t.read_threshold == 5000)) && leb 5 t.successive
    then record t { write_threshold = 76; read_threshold = 5000; successive = 0 }
    else t

unfoldable pub both_below : ℕ → ℕ → ℕ → Bool
both_below threshold q1 q2 = ltb q1 threshold && ltb q2 threshold

-- Whether a rate has fallen by more than five hundredths of its threshold.
unfoldable pub falls : ℕ → ℕ → ℕ → Bool
falls threshold q1 q2 = ltb (mul32 threshold 5) (mul64 100 (sub64 q1 q2))

unfoldable pub is_idle : Rates → Trend → Bool
unfolding both_below falls
is_idle q t =
    if both_below t.write_threshold q.write1 q.write2
    then (if both_below t.read_threshold q.read1 q.read2
        then true
        else if ltb q.read1 q.read2
        then false
        else falls t.read_threshold q.read1 q.read2)
    else if ltb q.write1 q.write2
    then false
    else both_below t.read_threshold q.read1 q.read2 && falls t.write_threshold q.write1 q.write2

unfoldable pub judge_qps_trend : Rates → Trend → Bool × Trend
unfolding observe raise_thresholds reset_thresholds is_idle
judge_qps_trend q t =
    let t' = reset_thresholds (raise_thresholds (observe q t)) in (is_idle q t', t')
