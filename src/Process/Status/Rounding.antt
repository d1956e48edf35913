-- ===== src/Process/Status/Rounding.antt =====
-- How far a written duration or size is from the true one.
use fleet_agent.Base.{ℕ, ◌+◌, ◌*◌, ◌≤◌, ◌<◌, Bool, arith}
use fleet_agent.Process.Status.{tenths_of_second, tenths_of_unit}

-- The tenths of a second that a duration is written with are within half a tenth of it.
tenths_of_second-IsNear :
    (tie : ℕ → Bool) (ms : ℕ)
    → (ms ≤ 100 * tenths_of_second tie ms + 50) × (100 * tenths_of_second tie ms ≤ ms + 50)
unfolding tenths_of_second
tenths_of_second-IsNear tie ms = ground arith

pub tenths_of_kilobyte-IsNear :
    (size : ℕ)
    → (20 * size < 2048 * tenths_of_unit 1024 size + 1024)
      × (2048 * tenths_of_unit 1024 size ≤ 20 * size + 1024)
unfolding tenths_of_unit
tenths_of_kilobyte-IsNear size = omega arith
