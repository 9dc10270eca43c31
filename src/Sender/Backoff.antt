-- ===== src/Sender/Backoff.antt =====
-- autorest/sender.go: the delays of `DelayForBackoffWithCap`.
use go_autorest.Prelude.{ℕ, ◌*◌, ◌^◌, ◌≤◌, ◌<◌, ◌≡◌, arith}
use go_autorest.Sender.{backoff_delay, second}

-- A positive cap bounds the delay of every attempt.
pub backoff_delay-le-cap :
    (backoff cap attempt : ℕ) → 0 < cap → backoff_delay backoff cap attempt ≤ cap
unfolding backoff_delay
backoff_delay-le-cap backoff cap attempt h = ground arith

-- Without a cap, a backoff of whole seconds is doubled exactly at each attempt.
pub backoff_delay_doubles :
    (n attempt : ℕ) → backoff_delay (n * second) 0 attempt ≡ n * 2 ^ attempt * second
unfolding backoff_delay
backoff_delay_doubles n attempt = omega arith
