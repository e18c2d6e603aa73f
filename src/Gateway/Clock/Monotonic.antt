-- ===== src/Gateway/Clock/Monotonic.antt =====
-- The readings of successive `now_ms` calls (crates/gateway/src/clock.rs).
use krusty_kms.Prelude.{
  ℕ, ◌-◌, ◌/◌, ◌≤◌, ◌≡◌, refl, List, [], ◌∷◌, Option, none, some, leb, Bool-cases, inl, inr, arith,
}
use krusty_kms.Gateway.Clock.{
  Anchor, Sample, u64_max, saturating_duration_ms, saturating_unix_time_ms, anchored_ms, advance,
  now_ms, readings,
}

-- The instants of the samples do not go back, which is what `Instant` documents; `from` is before.
abbrev pub Ticking : ℕ → List Sample → Type 0
Ticking from [] = Unit
Ticking from (s ∷ samples) = (from ≤ s.instant) × Ticking s.instant samples

-- Each reading is at least the one before it, and at least the wall clock's.
abbrev pub Advancing : ℕ → List ℕ → List Sample → Type 0
Advancing from (r ∷ rs) (s ∷ samples) =
    (from ≤ r) × (saturating_unix_time_ms s.wall ≤ r) × Advancing r rs samples
Advancing from [] [] = Unit
Advancing from _ _ = ⊥

saturating_duration_ms_mono :
    {a b : ℕ} → a ≤ b → saturating_duration_ms a ≤ saturating_duration_ms b
unfolding saturating_duration_ms
saturating_duration_ms_mono {a} {b} h =
    let d : a / 1_000_000 ≤ b / 1_000_000 = omega arith in ground arith

anchored_ms_mono :
    (a : Anchor) {now later : ℕ} → now ≤ later → anchored_ms a now ≤ anchored_ms a later
unfolding anchored_ms
anchored_ms_mono a {now} {later} h =
    let d =
      saturating_duration_ms_mono {a = now - a.started} {b = later - a.started} (omega arith) in
    ground arith

-- What the timeline has shown by `now`.
abbrev Shown : Option Anchor → ℕ → ℕ → Type 0
Shown none now reading = reading ≡ 0
Shown (some a) now reading = reading ≤ anchored_ms a now

unix_time_fits : (wall : Option ℕ) → saturating_unix_time_ms wall ≤ u64_max
unfolding saturating_unix_time_ms saturating_duration_ms
unix_time_fits none = omega arith
unix_time_fits (some d) = ground arith

started-now :
    (wall : Option ℕ) (now : ℕ)
    → Shown
        (some (record { epoch_ms = saturating_unix_time_ms wall; started = now }))
        now
        (saturating_unix_time_ms wall)
unfolding anchored_ms
started-now wall now = ground (arith, unix_time_fits wall)

step-Shown :
    (anchor : Option Anchor) (s : Sample) (now reading : ℕ)
    → now ≤ s.instant
    → Shown anchor now reading
    → (reading ≤ (now_ms anchor s).0)
      × (saturating_unix_time_ms s.wall ≤ (now_ms anchor s).0)
      × Shown (now_ms anchor s).1 s.instant (now_ms anchor s).0
unfolding now_ms advance
step-Shown none s now reading tick shown =
    (omega (arith, shown), omega arith, started-now s.wall s.instant)
step-Shown (some a) s now reading tick shown =
    let grown = anchored_ms_mono a tick in
    elim (Bool-cases (leb (saturating_unix_time_ms s.wall) (anchored_ms a s.instant))) [
      | inl e ↦ rw e (omega (arith, grown, shown), ground arith, omega arith)
      | inr e ↦ rw e (ground (arith, grown, shown), omega arith, started-now s.wall s.instant)
    ]

readings-Advancing :
    (anchor : Option Anchor) (samples : List Sample) (now reading : ℕ)
    → Ticking now samples
    → Shown anchor now reading
    → Advancing reading (readings anchor samples) samples
unfolding readings
readings-Advancing anchor [] now reading tick shown = tt
readings-Advancing anchor (s ∷ samples) now reading (tick, ticks) shown =
    let (grown, wall, shown') = step-Shown anchor s now reading tick shown in
    (
      grown,
      wall,
      readings-Advancing (now_ms anchor s).1 samples s.instant (now_ms anchor s).0 ticks shown',
    )

-- Whatever the wall clock does, when instants do not go back the readings of a fresh clock never
-- decrease, and none is behind the wall clock that it was taken with.
pub clock-Advancing :
    (samples : List Sample) → Ticking 0 samples → Advancing 0 (readings none samples) samples
clock-Advancing samples tick = readings-Advancing none samples 0 0 tick refl
