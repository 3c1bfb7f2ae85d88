-- ===== src/Python/Time.antt =====
-- `time.monotonic` and `time.sleep`. The clock belongs to the machine: `delays` is how far it moves
-- before each reading, so that a statement for every `delays` is one for every timing. Times are
-- whole ticks. Python promises that the clock never goes back and that a sleep lasts at least as
-- long as asked.
use pysilience.Prelude.{ℕ, ◌+◌, List, [], ◌∷◌}

pub record Clock : Type 0 where
  pub now : ℕ
  pub delays : List ℕ

-- The time that passes before the next reading.
abbrev pub next_delay : List ℕ → ℕ
next_delay [] = 0
next_delay (d ∷ ds) = d

abbrev pub later_delays : List ℕ → List ℕ
later_delays [] = []
later_delays (d ∷ ds) = ds

-- The clock after a reading; the reading is its `now`.
abbrev pub monotonic : Clock → Clock
monotonic c = record { now = c.now + next_delay c.delays; delays = later_delays c.delays }

abbrev pub sleep : ℕ → Clock → Clock
sleep t c = record { now = c.now + t + next_delay c.delays; delays = later_delays c.delays }
