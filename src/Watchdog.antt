-- ===== src/Watchdog.antt =====
-- src/ice_disconnect_watchdog.cc: one timer thread at a time, outdated by a generation counter. The
-- callback is what `fire` reports.
use webrtc_peerconnection_cl.Prelude.{ℕ, ◌+◌, ◌%◌, ◌^◌, Bool, false, Option, none, some, ◌==◌}

-- `thread`: the generation that the joinable thread captured.
pub record Watchdog : Type 0 where
  pub generation : ℕ
  pub thread : Option ℕ

abbrev pub new_watchdog : Watchdog
new_watchdog = record { generation = 0; thread = none }

abbrev next : ℕ → ℕ
next g = (g + 1) % 2 ^ 64

-- The thread is stopped and joined, or detached when it disarms itself.
abbrev pub disarm : Watchdog → Watchdog
disarm w = record { generation = next w.generation; thread = none }

abbrev pub arm : Watchdog → Watchdog
arm w = let g = next (disarm w).generation in record { generation = g; thread = some g }

-- The thread past its deadline with no stop requested: does it call back?
abbrev pub fire : Watchdog → Bool
fire w = elim w.thread [ none ↦ false | some g ↦ w.generation == g ]
