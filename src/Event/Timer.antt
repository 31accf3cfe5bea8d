-- ===== src/Event/Timer.antt =====
-- event.h and event.cpp, the time of an event: `setTime` and the calls that go through it. A time in
-- microseconds is `some t`; the negative value that stands for "disabled" is `none`.
use icetunnel.Prelude.{
  ℕ, ◌+◌, ◌≡◌, refl, Bool, true, false, ◌||◌, Option, none, some, arith, ltb, if◌then◌else◌, min,
}

abbrev pub Time : Type 0
Time = Option ℕ

-- `force || (this->timeUs > timeUs && timeUs >= 0) || (this->timeUs < 0)`.
unfoldable pub accepts : Bool → Time → Time → Bool
accepts force none new = true
accepts force (some current) none = force
accepts force (some current) (some new) = force || ltb new current

-- The time after `setTime(new, force)`. Setting the time that is there changes nothing.
unfoldable pub set_time : Bool → Time → Time → Time
unfolding accepts
set_time force current new = if accepts force current new then new else current

-- `setTimeRelativeNow(delay)` at the clock's `now`, with force = false.
unfoldable pub set_time_relative_now : ℕ → ℕ → Time → Time
unfolding set_time
set_time_relative_now now delay current = set_time false current (some (now + delay))

-- `setTimeRelativePrev(delay, force)`.
unfoldable pub set_time_relative_prev : Bool → ℕ → ℕ → Time → Time
unfolding set_time
set_time_relative_prev force now delay none = set_time force none (some (now + 0))
set_time_relative_prev force now delay (some time) =
    set_time force (some time) (some (time + delay))

-- `disable()` is `setTime(-1, true)`.
unfoldable pub disable : Time → Time
unfolding set_time
disable current = set_time true current none

abbrev pub is_enabled : Time → Bool
is_enabled none = false
is_enabled (some time) = true

-- `none` after every time, as a disabled event waits forever.
abbrev pub earlier : Time → Time → Time
earlier none new = new
earlier (some current) none = some current
earlier (some current) (some new) = some (min current new)

-- Without force an event keeps the earlier of its time and the new one, where no time counts as
-- the latest; with force it takes the new one.
pub set_time_lem :
    (current new : Time)
    → (set_time false current new ≡ earlier current new) × (set_time true current new ≡ new)
unfolding set_time
set_time_lem none none = (refl, refl)
set_time_lem none (some new) = (refl, refl)
set_time_lem (some current) none = (refl, refl)
set_time_lem (some current) (some new) = (ground arith, refl)
