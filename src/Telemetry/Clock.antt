-- ===== src/Telemetry/Clock.antt =====
-- internal/peer/telemetry.go: the clock of a Peer, which follows the Controller's.
-- A duration is a signed number of nanoseconds; no reading lies before Go's zero time.
use v.Common.{ℕ, ◌+◌, Bool, false, ◌&&◌, Option, none, some, if◌then◌else◌, ltb}
use v.Common.Int.{ℤ, pos, pos_part, ◌+ℤ◌, sub_ℕ, leb_ℤ}
use v.Model.{Time}

pub record ClockEstimate : Type 0 where
  pub offset : ℤ
  pub uncertainty : ℤ

pub record ClockSample : Type 0 where
  pub offset : ℤ
  pub uncertainty : ℤ
  pub sampled_at : Time

pub record Reading : Type 0 where
  pub timestamp : Time
  pub offset : ℤ
  pub uncertainty : ℤ
  pub synchronized : Bool

-- 2 min in nanoseconds.
abbrev pub controller_clock_max_age : ℕ
controller_clock_max_age = 120_000_000_000

-- `t.Add(d)`.
abbrev pub add_duration : Time → ℤ → Time
add_duration t d = pos_part (pos t +ℤ d)

-- `clockReadingAt`.
unfoldable pub clock_reading_at : Time → Option ClockSample → Reading
unfolding ◌+ℤ◌
clock_reading_at now none = record {
  timestamp = now;
  offset = pos 0;
  uncertainty = pos 0;
  synchronized = false;
}
clock_reading_at now (some sample) =
    let age = sub_ℕ now sample.sampled_at in
    record {
      timestamp = add_duration now sample.offset;
      offset = sample.offset;
      uncertainty = sample.uncertainty;
      synchronized = leb_ℤ (pos 0) age && leb_ℤ age (pos controller_clock_max_age);
    }

-- `acceptClockEstimate`: what is stored.
unfoldable pub sample_of : ClockEstimate → Time → ClockSample
sample_of e at = record { offset = e.offset; uncertainty = e.uncertainty; sampled_at = at }

-- The reading of `observationClockLocked`: later than the one before.
unfoldable pub after_last : Time → Reading → Reading
after_last last r = if ltb last r.timestamp then r else record r { timestamp = last + 1 }
