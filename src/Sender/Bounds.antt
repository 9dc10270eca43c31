-- ===== src/Sender/Bounds.antt =====
-- How often the retry loops send, and that they end.
use go_autorest.Prelude.{
  ℕ, zero, suc, String, ◌+◌, ◌≤◌, ◌<◌, ◌≡◌, refl, Bool, true, false, Option, none, some, arith,
  if-intro, ltb, length,
}
use go_autorest.Http.{Response}
use go_autorest.Errors.{Reply}
use go_autorest.Retriable.{RetriableRequest, prepare}
use go_autorest.Sender.{
  Env, Sending, Attempt, refused, replied, attempt, transmit_prepared, Round, finish, retry, reply,
  is_some, after_wait, retry_round, retry_for_attempts, do_retry_for_attempts, backoff_delay,
  delay_with_retry_after,
}
use go_autorest.Sender.Status
use go_autorest.Sender.Status.{
  Counts, StatusConfig, StatusRound, no_retry, count, is_429, capped, status_round, status_loop,
  do_retry_for_status_codes, after_retry_after, after_backoff,
}

module _ {W : Type 0} (env : Env W) where
  -- how many bodies were given to the sender
  abbrev pub sends : Sending W → ℕ
  sends s = length s.sent

  abbrev AttemptSendsOnce : ℕ → Attempt W → Type 0
  AttemptSendsOnce n (refused e s) = sends s ≡ n
  AttemptSendsOnce n (replied r s) = sends s ≡ n + 1

  transmit_sends_once :
      (x : Option String × RetriableRequest) (s : Sending W)
      → AttemptSendsOnce (sends s) (transmit_prepared env x s)
  unfolding transmit_prepared
  transmit_sends_once (some e, rr) s = refl
  transmit_sends_once (none, rr) s = omega arith

  attempt_sends_once : (s : Sending W) → AttemptSendsOnce (sends s) (attempt env s)
  unfolding attempt
  attempt_sends_once s = transmit_sends_once (prepare s.request) s

  abbrev RoundAtMost : ℕ → Round W → Type 0
  RoundAtMost n (finish r s) = sends s ≤ n
  RoundAtMost n (retry r s) = sends s ≤ n

  after_wait-sends :
      (n : ℕ) (c : Option Response) (last : Reply) (s : Sending W) (x : Bool × W)
      → sends s ≤ n
      → RoundAtMost n (after_wait env c last s x)
  unfolding after_wait
  after_wait-sends n c last s (true, w) h = h
  after_wait-sends n c last s (false, w) h = h

  retry_round_sends :
      (m backoff n : ℕ) (last : Reply) (a : Attempt W)
      → AttemptSendsOnce m a
      → RoundAtMost (m + 1) (retry_round env backoff n last a)
  unfolding retry_round
  retry_round_sends m backoff n last (refused e s) h = omega arith
  retry_round_sends m backoff n last (replied r s) h =
      if-intro (RoundAtMost (m + 1)) (is_some r.failure)
        (λ _.
          after_wait-sends (m + 1) none r s (env.wait s.world (backoff_delay backoff 0 n))
            (omega arith))
        (λ _. omega arith)

  step_sends :
      (m backoff k n : ℕ) (x : Round W)
      → ((r : Reply) (s : Sending W)
          → sends (retry_for_attempts env backoff k (n + 1) r s).1 ≤ sends s + k)
      → RoundAtMost (m + 1) x
      → sends
          (elim x as (λ _. Reply × Sending W) [
            | finish r s' ↦ (r, s')
            | retry r s' ↦ retry_for_attempts env backoff k (n + 1) r s'
          ]).1
        ≤ m + suc k
  step_sends m backoff k n (finish r s) ih h = omega arith
  step_sends m backoff k n (retry r s) ih h = omega (arith, ih r s)

  sends-retry_for_attempts :
      (backoff k n : ℕ) (last : Reply) (s : Sending W)
      → sends (retry_for_attempts env backoff k n last s).1 ≤ sends s + k
  unfolding retry_for_attempts
  sends-retry_for_attempts backoff zero n last s = omega arith
  sends-retry_for_attempts backoff (suc k) n last s =
      step_sends (sends s) backoff k n (retry_round env backoff n last (attempt env s))
        (sends-retry_for_attempts backoff k (n + 1))
        (retry_round_sends (sends s) backoff n last (attempt env s) (attempt_sends_once s))

  -- `DoRetryForAttempts` gives a body to the sender at most as often as it has attempts.
  pub attempts_bound_sends :
      (attempts backoff : ℕ) (s : Sending W)
      → sends (do_retry_for_attempts env attempts backoff s).1 ≤ sends s + attempts
  unfolding do_retry_for_attempts
  attempts_bound_sends attempts backoff s =
      sends-retry_for_attempts backoff attempts 0 (reply none none) s

-- The loop of `DoRetryForStatusCodes`, where a 429 counts as an attempt.
module _ {W : Type 0} (env : Env W) (config : StatusConfig) (counts : config.count429 ≡ true) where
  -- a round sends at most once, and one that goes on has counted an attempt
  abbrev RoundCounts : ℕ → ℕ → StatusRound W → Type 0
  RoundCounts m a (Status.finish r s) = length s.sent ≤ m
  RoundCounts m a (Status.retry c r s) = (length s.sent ≤ m) × (c.attempts_made ≡ a + 1)

  after_backoff_counts :
      (m : ℕ) (c : Counts) (r : Reply) (s : Sending W) (x : Bool × W)
      → length s.sent ≤ m
      → RoundCounts m c.attempts_made (after_backoff env config c r s x)
  unfolding after_backoff
  after_backoff_counts m c r s (true, w) h = (h, rw counts refl)
  after_backoff_counts m c r s (false, w) h = h

  after_retry_after_counts :
      (m : ℕ) (c : Counts) (r : Reply) (s : Sending W) (x : Bool × W)
      → length s.sent ≤ m
      → RoundCounts m c.attempts_made (after_retry_after env config c r s x)
  unfolding after_retry_after
  after_retry_after_counts m c r s (true, w) h = after_backoff_counts m c r s (true, w) h
  after_retry_after_counts m c r s (false, w) h =
      after_backoff_counts m c r s (env.wait w (backoff_delay config.backoff c.cap c.delay_count)) h

  status_round_counts :
      (m : ℕ) (c : Counts) (last : Reply) (a : Attempt W)
      → AttemptSendsOnce env m a
      → RoundCounts (m + 1) c.attempts_made (status_round env config c last a)
  unfolding status_round
  status_round_counts m c last (refused e s) h = omega arith
  status_round_counts m c last (replied r s) h =
      if-intro (RoundCounts (m + 1) c.attempts_made) (no_retry config.codes r) (λ _. omega arith)
        (λ _.
          after_retry_after_counts (m + 1) (capped env config r.answer c) r s
            (delay_with_retry_after env r.answer s.world) (omega arith))

  -- the loop ended, and gave at most n bodies to the sender
  abbrev pub EndsWithin : ℕ → Option (Reply × Sending W) → Type 0
  EndsWithin n none = ⊥
  EndsWithin n (some (r, s)) = length s.sent ≤ n

  round_ends :
      (fuel n m : ℕ) (a : ℕ) (x : StatusRound W)
      → ((c : Counts) (r : Reply) (s : Sending W)
          → length s.sent ≤ m
          → c.attempts_made ≡ a + 1
          → EndsWithin n (status_loop env config fuel c r s))
      → m ≤ n
      → RoundCounts m a x
      → EndsWithin n (elim x [
        | Status.finish r s' ↦ some (r, s')
        | Status.retry c' r s' ↦ status_loop env config fuel c' r s'
      ])
  round_ends fuel n m a (Status.finish r s) ih l h = omega arith
  round_ends fuel n m a (Status.retry c r s) ih l (h, e) = ih c r s h e

  status_loop_ends :
      (fuel n : ℕ) (c : Counts) (last : Reply) (s : Sending W)
      → config.attempts + 1 < fuel + c.attempts_made
      → c.attempts_made ≤ config.attempts + 1
      → length s.sent + (config.attempts + 1) ≤ n + c.attempts_made
      → EndsWithin n (status_loop env config fuel c last s)
  unfolding status_loop
  status_loop_ends zero n c last s room low bound = absurd (omega arith)
  status_loop_ends (suc fuel) n c last s room low bound =
      test (status_loop_ends fuel n) (ltb c.attempts_made (config.attempts + 1)) refl
    where
      test :
          ((c' : Counts) (r : Reply) (s' : Sending W)
            → config.attempts + 1 < fuel + c'.attempts_made
            → c'.attempts_made ≤ config.attempts + 1
            → length s'.sent + (config.attempts + 1) ≤ n + c'.attempts_made
            → EndsWithin n (status_loop env config fuel c' r s'))
          → (b : Bool) → ltb c.attempts_made (config.attempts + 1) ≡ b
          → EndsWithin n (elim b [
            | false ↦ some (last, s)
            | true ↦ elim (status_round env config c last (attempt env s)) [
              | Status.finish r s' ↦ some (r, s')
              | Status.retry c' r s' ↦ status_loop env config fuel c' r s'
            ]
          ])
      test ih false e = omega arith
      test ih true e =
          let less : c.attempts_made < config.attempts + 1 = ground arith in
          round_ends fuel n (length s.sent + 1) c.attempts_made
            (status_round env config c last (attempt env s))
            (λ c' r s' l q. ih c' r s' (omega arith) (omega arith) (omega arith)) (omega arith)
            (status_round_counts (length s.sent) c last (attempt env s) (attempt_sends_once env s))

  -- Let a 429 count as an attempt. Then `DoRetryForStatusCodes`, with any cap, ends within two rounds
  -- more than its attempts, and gives a body to the sender at most once more than it has attempts.
  pub status_codes_ends :
      (fuel cap : ℕ) (s : Sending W)
      → config.attempts + 1 < fuel
      → EndsWithin
          (length s.sent + (config.attempts + 1))
          (do_retry_for_status_codes env config fuel cap s)
  unfolding do_retry_for_status_codes
  status_codes_ends fuel cap s h =
      status_loop_ends fuel (length s.sent + (config.attempts + 1))
        (record { attempts_made = 0; delay_count = 0; cap = cap }) (reply none none) s (omega arith)
        (omega arith) (omega arith)
