-- ===== src/Server/Interval.antt =====
-- The intervals of server.cpp: the send interval of a new connection and the wait of `step`.
use icetunnel.Prelude.{ℕ, ◌+◌, ◌*◌, ◌/◌, ◌≤◌, ◌<◌, ◌≡◌, max, false, Option, none, some, List, arith}
use icetunnel.Connection.{new_connection}
use icetunnel.Connection.State.{Config, Env, on_udp_sent_buffer_changed}
use icetunnel.Connection.Build.{put_packet}
use icetunnel.Socket.Open.{poll_wait_ms}
use icetunnel.Server.{Server, get_udp_initial_interval_us, poll_duration}

-- Whatever the floating-point part gives, the interval is not below half of the initial one, and
-- not above the larger of the initial one and a third of the time after which packets are sent
-- again.
pub get_udp_initial_interval_us_bounds :
    (rate : ℕ → List ℕ → ℕ) (s : Server)
    → let us = get_udp_initial_interval_us rate s in
      (s.udp_initial_send_interval_us / 2 ≤ us)
      × (us ≤ max s.udp_initial_send_interval_us (s.config.udp_resend_us / 3))
unfolding get_udp_initial_interval_us
get_udp_initial_interval_us_bounds rate s = (ground arith, ground arith)

new_connection_fault :
    (env : Env) (config : Config) (us : ℕ)
    → 0 < us
    → 0 < config.udp_send_packet_size
    → (new_connection env config us).fault ≡ false
unfolding new_connection put_packet on_udp_sent_buffer_changed
new_connection_fault env config us interval size = ground arith

-- With an initial interval of two microseconds or more and a positive packet size, no connection
-- that the server opens divides by zero in its constructor.
pub new_connection_starts :
    (rate : ℕ → List ℕ → ℕ) (env : Env) (s : Server)
    → 2 ≤ s.udp_initial_send_interval_us
    → 0 < s.config.udp_send_packet_size
    → (new_connection env s.config (get_udp_initial_interval_us rate s)).fault ≡ false
new_connection_starts rate env s interval size =
    new_connection_fault env s.config (get_udp_initial_interval_us rate s)
      (ground (arith, (get_udp_initial_interval_us_bounds rate s).0)) size

poll_duration_lem :
    (step_us begin poll_begin : ℕ) (next : Option ℕ)
    → begin ≤ poll_begin
    → (poll_duration step_us begin poll_begin next ≤ step_us)
      × ((t : ℕ)
          → next ≡ some t
          → poll_begin + poll_duration step_us begin poll_begin next ≤ max poll_begin t)
unfolding poll_duration
poll_duration_lem step_us begin poll_begin none clock = (ground arith, λ t e. cc e)
poll_duration_lem step_us begin poll_begin (some next) clock = (ground arith, λ t e. ground arith)

poll_wait_ms_lem :
    (duration_us draw : ℕ)
    → (1000 * poll_wait_ms duration_us draw < duration_us + 1000)
      × (duration_us < 1000 * poll_wait_ms duration_us draw + 1000)
unfolding poll_wait_ms
poll_wait_ms_lem duration_us draw = (omega arith, omega arith)

-- With a clock that does not go back, and any random number, `poll` waits in `step` for less than a
-- millisecond more than the duration of the step and, if there is a next event, for less than a
-- millisecond past it, or past now if it is due already. It is also less than a millisecond that the
-- wait falls short of what `step` asks for.
pub poll_wait_bounds :
    (step_us begin poll_begin draw : ℕ) (next : Option ℕ)
    → begin ≤ poll_begin
    → let duration_us = poll_duration step_us begin poll_begin next in
      let wait_us = 1000 * poll_wait_ms duration_us draw in
      (wait_us < step_us + 1000)
      × ((t : ℕ) → next ≡ some t → poll_begin + wait_us < max poll_begin t + 1000)
      × (duration_us < wait_us + 1000)
poll_wait_bounds step_us begin poll_begin draw next clock =
    let duration_us = poll_duration step_us begin poll_begin next in
    let (short, event) = poll_duration_lem step_us begin poll_begin next clock in
    let (above, below) = poll_wait_ms_lem duration_us draw in
    (omega (arith, short, above), λ t e. omega (arith, event t e, above), below)
