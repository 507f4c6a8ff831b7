-- ===== src/WallClock/Time.antt =====
-- The time on the display is the time that was set, plus the seconds since then, over a day.
use ece_354_real_time_operat.Base.{ℕ, ◌+◌, ◌*◌, ◌-◌, ◌/◌, ◌%◌, ◌^◌, refl, ◌≡◌, ◌<◌, arith}
use ece_354_real_time_operat.WallClock.{Clock, cur_time, out_sec, out_min, out_hour}

carried :
    (h m s t : ℕ)
    → (h + (m + (s + t) / 60) / 60) % 24 * 3600 + (m + (s + t) / 60) % 60 * 60 + (s + t) % 60
      ≡ (h * 3600 + m * 60 + s + t) % 86400
carried h m s t = omega arith

-- Whatever the clock holds, the seconds shown are those set plus those passed, modulo one day, and
-- the display shows a time of day.
pub out_time_lem :
    (now : ℕ) (c : Clock)
    → (out_hour now c * 3600 + out_min now c * 60 + out_sec now c
        ≡ (c.hour * 3600 + c.min * 60 + c.sec + cur_time now c) % 86400)
      × (out_hour now c < 24)
      × (out_min now c < 60)
      × (out_sec now c < 60)
unfolding out_hour out_min out_sec
out_time_lem now c =
    (carried c.hour c.min c.sec (cur_time now c), omega arith, omega arith, omega arith)

-- The time of day on the display, in seconds.
abbrev pub shown_seconds : ℕ → Clock → ℕ
shown_seconds now c = out_hour now c * 3600 + out_min now c * 60 + out_sec now c

-- The milliseconds since the time was set, also where the timer has passed 2 ^ 32 since.
cur_time-elapsed :
    (elapsed : ℕ) (c : Clock)
    → c.base_time < 2 ^ 32
    → elapsed < 2 ^ 32
    → cur_time ((c.base_time + elapsed) % 2 ^ 32) c ≡ elapsed / 1000
unfolding cur_time
cur_time-elapsed elapsed c based small =
    let e : ((c.base_time + elapsed) % 2 ^ 32 + 2 ^ 32 - c.base_time) % 2 ^ 32 ≡ elapsed =
      omega arith in
    rw e refl

-- If the timer stands `elapsed` milliseconds after the time was set, and `n` seconds later still
-- less than 2 ^ 32 milliseconds after it, the display then shows `n` seconds more than before, over
-- a day, even if the timer has wrapped around in between; at the time that it was set the display
-- shows the time that was set. What is shown is a time of day.
pub out_time_advances :
    (elapsed n : ℕ) (c : Clock)
    → c.base_time < 2 ^ 32
    → elapsed + n * 1000 < 2 ^ 32
    → (shown_seconds c.base_time c ≡ (c.hour * 3600 + c.min * 60 + c.sec) % 86400)
      × (shown_seconds ((c.base_time + (elapsed + n * 1000)) % 2 ^ 32) c
          ≡ (shown_seconds ((c.base_time + elapsed) % 2 ^ 32) c + n) % 86400)
      × (shown_seconds ((c.base_time + elapsed) % 2 ^ 32) c < 86400)
out_time_advances elapsed n c based small =
    let now = (c.base_time + elapsed) % 2 ^ 32 in
    let later = (c.base_time + (elapsed + n * 1000)) % 2 ^ 32 in
    let at_now = (out_time_lem now c).0 in
    let at_later = (out_time_lem later c).0 in
    let at_base = (out_time_lem c.base_time c).0 in
    let same : (c.base_time + 0) % 2 ^ 32 ≡ c.base_time = omega arith in
    let at_start : cur_time c.base_time c ≡ 0 =
      rw same at (cur_time-elapsed 0 c based (omega arith)) in
    let passed = cur_time-elapsed elapsed c based (omega arith) in
    let passed' = cur_time-elapsed (elapsed + n * 1000) c based small in
    (omega arith, omega arith, omega arith)
