-- ===== src/Gateway/Clock.antt =====
-- crates/gateway/src/clock.rs: the timeline behind `SystemClock`. An `Instant` or `Duration` is its
-- number of nanoseconds; `saturating_duration_since` is subtraction that stops at 0.
pub mod Monotonic
use krusty_kms.Prelude.{
  ℕ, ◌+◌, ◌-◌, ◌/◌, ◌^◌, List, [], ◌∷◌, Option, none, some, ltb, leb, min, if◌then◌else◌,
}

abbrev pub u64_max : ℕ
u64_max = 2 ^ 64 - 1

abbrev pub saturating_add : ℕ → ℕ → ℕ
saturating_add a b = min (a + b) u64_max

-- Whole milliseconds, at most `u64::MAX`.
unfoldable pub saturating_duration_ms : ℕ → ℕ
saturating_duration_ms duration =
    let millis = duration / 1_000_000 in if ltb u64_max millis then u64_max else millis

-- `wall` in nanoseconds from the epoch, none before it.
unfoldable pub saturating_unix_time_ms : Option ℕ → ℕ
saturating_unix_time_ms none = 0
saturating_unix_time_ms (some since_epoch) = saturating_duration_ms since_epoch

pub record Anchor : Type 0 where
  pub epoch_ms : ℕ
  pub started : ℕ

-- What the anchored timeline shows at `now`.
unfoldable pub anchored_ms : Anchor → ℕ → ℕ
anchored_ms a now = saturating_add a.epoch_ms (saturating_duration_ms (now - a.started))

abbrev re_anchor : ℕ → ℕ → ℕ × Option Anchor
re_anchor wall_ms now = (wall_ms, some (record { epoch_ms = wall_ms; started = now }))

-- The reading, and the anchor after it.
unfoldable pub advance : Option Anchor → ℕ → ℕ → ℕ × Option Anchor
advance none wall_ms now = re_anchor wall_ms now
advance (some a) wall_ms now =
    if leb wall_ms (anchored_ms a now) then (anchored_ms a now, some a) else re_anchor wall_ms now

-- One call of `now_ms`: both clocks are sampled under the lock.
pub record Sample : Type 0 where
  pub wall : Option ℕ
  pub instant : ℕ

unfoldable pub now_ms : Option Anchor → Sample → ℕ × Option Anchor
now_ms anchor s = advance anchor (saturating_unix_time_ms s.wall) s.instant

-- The readings of successive calls.
unfoldable pub readings : Option Anchor → List Sample → List ℕ
readings anchor [] = []
readings anchor (s ∷ samples) =
    let (reading, anchor') = now_ms anchor s in reading ∷ readings anchor' samples
