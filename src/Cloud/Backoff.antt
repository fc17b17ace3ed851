-- ===== src/Cloud/Backoff.antt =====
-- The two back-offs of the cloud FSM, in nanoseconds: nextConnBackoff and nextThingIDBackoff.
-- The products of nextConnBackoff are taken exactly where Go rounds them to a float64.
use arduino_cloud_connector.Common.{ℕ, ◌+◌, ◌-◌, ◌*◌, ◌/◌, ltb, ◌==◌, if◌then◌else◌}

abbrev pub second : ℕ
second = 1_000_000_000

abbrev pub conn_backoff_base : ℕ
conn_backoff_base = 1 * second

abbrev pub conn_backoff_max : ℕ
conn_backoff_max = 300 * second

abbrev pub thing_id_phase1_base : ℕ
thing_id_phase1_base = 2 * second

abbrev pub thing_id_phase1_max : ℕ
thing_id_phase1_max = 32 * second

abbrev pub thing_id_phase2_base : ℕ
thing_id_phase2_base = 20 * second

abbrev pub thing_id_phase2_max : ℕ
thing_id_phase2_max = 1280 * second

abbrev pub last_values_retry_interval : ℕ
last_values_retry_interval = 15 * second

abbrev pub last_values_max_retries : ℕ
last_values_max_retries = 10

-- `next` before the jitter.
unfoldable pub doubled : ℕ → ℕ
doubled current =
    let next = current * 2 in if ltb conn_backoff_max next then conn_backoff_max else next

-- next * 0.10 * (seed * 2 - 1), truncated: it is negative at the seed 0 alone.
unfoldable pub next_conn_backoff : ℕ → ℕ → ℕ
next_conn_backoff current seed =
    let next = doubled current in
    if seed == 0 then next - next / 10 else next + next * (seed * 2 - 1) / 10

unfoldable pub next_thing_id_backoff : ℕ → ℕ → ℕ
next_thing_id_backoff current max_delay =
    let next = current * 2 in if ltb max_delay next then max_delay else next
