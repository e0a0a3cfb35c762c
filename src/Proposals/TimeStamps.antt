-- ===== src/Proposals/TimeStamps.antt =====
-- TimeStamp: seconds and milliseconds.
use skale_consensus.Prelude.{
  ℕ, ◌+◌, ◌*◌, ◌/◌, ◌%◌, ◌^◌, ◌≡◌, ◌≤◌, ◌<◌, ◌↔◌, Bool, true, false, ltb, ◌==◌, if◌then◌else◌, u64,
  arith,
}

pub record TimeStamp : Type 0 where
  pub s : ℕ
  pub ms : ℕ

-- `operator<`
unfoldable pub earlier : TimeStamp → TimeStamp → Bool
earlier l r = if ltb l.s r.s then true else if ltb r.s l.s then false else ltb l.ms r.ms

unfoldable pub increment_by_ms : TimeStamp → TimeStamp
increment_by_ms t =
    if t.ms == 999
    then record { s = u64 (t.s + 1); ms = 0 }
    else record { s = t.s; ms = u64 (t.ms + 1) }

unfoldable pub get_linux_time_ms : TimeStamp → ℕ
get_linux_time_ms t = u64 (u64 (1000 * t.s) + t.ms)

-- getCurrentTimeStamp, of the clock's milliseconds.
unfoldable pub time_stamp_at : ℕ → TimeStamp
time_stamp_at time = record { s = time / 1000; ms = time % 1000 }

-- Fewer than a second's milliseconds, and seconds that leave room.
abbrev pub IsTime : TimeStamp → Type 0
IsTime t = (t.ms ≤ 999) × (t.s < 2 ^ 54)

-- For time stamps of at most 999 milliseconds and fewer than 2^54 seconds, operator< is the order of
-- their times.
pub earlier_iff :
    (l r : TimeStamp)
    → IsTime l
    → IsTime r
    → (earlier l r ≡ true) ↔ (get_linux_time_ms l < get_linux_time_ms r)
unfolding earlier get_linux_time_ms
earlier_iff l r p q = ground (arith, p, q)

-- The next of such a time stamp is a millisecond later.
pub increment_by_ms-get_linux_time_ms :
    (t : TimeStamp) → IsTime t → get_linux_time_ms (increment_by_ms t) ≡ get_linux_time_ms t + 1
unfolding increment_by_ms get_linux_time_ms
increment_by_ms-get_linux_time_ms t p = ground (arith, p)

-- A time stamp stands for the milliseconds, fewer than 2^63, that it was made of.
pub get_linux_time_ms-time_stamp_at :
    (time : ℕ) → time < 2 ^ 63 → get_linux_time_ms (time_stamp_at time) ≡ time
unfolding get_linux_time_ms time_stamp_at
get_linux_time_ms-time_stamp_at time h = omega (arith, h)
