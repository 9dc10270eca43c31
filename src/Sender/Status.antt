-- ===== src/Sender/Status.antt =====
-- autorest/sender.go: `doRetryForStatusCodesImpl`.
use go_autorest.Prelude.{
  ℕ, zero, suc, ◌+◌, Bool, true, false, not, ◌||◌, Option, none, some, List, ltb, ◌==◌,
  if◌then◌else◌,
}
use go_autorest.Http.{Response, response_has_status_code}
use go_autorest.Errors.{Reply, is_token_refresh_error}
use go_autorest.Sender.{
  Env, Sending, Attempt, refused, replied, reply, attempt, backoff_delay, delay_with_retry_after,
}

-- The variables of the loop: the attempt, the delay count and the cap.
pub record Counts : Type 0 where
  pub attempts_made : ℕ
  pub delay_count : ℕ
  pub cap : ℕ

pub data StatusRound (W : Type 0) : Type 0 where
  finish : Reply → Sending W → StatusRound W
  retry : Counts → Reply → Sending W → StatusRound W

-- `resp != nil && resp.StatusCode == http.StatusTooManyRequests`
abbrev pub is_429 : Option Response → Bool
is_429 none = false
is_429 (some resp) = resp.status_code == 429

-- The arguments of the decorator, and the package's `Max429Delay`.
pub record StatusConfig : Type 0 where
  pub count429 : Bool
  pub attempts : ℕ
  pub backoff : ℕ
  pub codes : List ℕ
  pub max_429_delay : ℕ

-- `err == nil && !ResponseHasStatusCode(resp, codes...) || IsTokenRefreshError(err)`
abbrev pub no_retry : List ℕ → Reply → Bool
no_retry codes r = elim r.failure [
  | none ↦ not (response_has_status_code r.answer codes)
  | some e ↦ is_token_refresh_error e
]

abbrev pub count : Bool → Option Response → Counts → Counts
count count429 resp c = record c {
  attempts_made = if count429 || not (is_429 resp) then c.attempts_made + 1 else c.attempts_made;
  delay_count = c.delay_count + 1;
}

module _ {W : Type 0} (env : Env W) (config : StatusConfig) where
  open config use {count429, attempts, backoff, codes, max_429_delay}

  unfoldable pub after_backoff : Counts → Reply → Sending W → Bool × W → StatusRound W
  after_backoff c r s (true, w) = retry (count count429 r.answer c) r (record s { world = w })
  after_backoff c r s (false, w) = finish (reply r.answer (env.ctx_err w)) (record s { world = w })

  unfoldable pub after_retry_after : Counts → Reply → Sending W → Bool × W → StatusRound W
  after_retry_after c r s (true, w) = after_backoff c r s (true, w)
  after_retry_after c r s (false, w) =
      after_backoff c r s (env.wait w (backoff_delay backoff c.cap c.delay_count))

  -- the cap is changed for good once a 429 was seen
  abbrev pub capped : Option Response → Counts → Counts
  capped resp c = record c { cap = if is_429 resp then max_429_delay else c.cap }

  unfoldable pub status_round : Counts → Reply → Attempt W → StatusRound W
  status_round c last (refused e s) = finish (reply last.answer (some e)) s
  status_round c last (replied r s) =
      if no_retry codes r
      then finish r s
      else after_retry_after (capped r.answer c) r s (delay_with_retry_after env r.answer s.world)

  unfoldable pub status_loop : ℕ → Counts → Reply → Sending W → Option (Reply × Sending W)
  status_loop zero c last s = none
  status_loop (suc fuel) c last s = elim (ltb c.attempts_made (attempts + 1)) [
    | false ↦ some (last, s)
    | true ↦ elim (status_round c last (attempt env s)) [
      | finish r s' ↦ some (r, s')
      | retry c' r s' ↦ status_loop fuel c' r s'
    ]
  ]

  -- `DoRetryForStatusCodes` (cap 0) and `DoRetryForStatusCodesWithCap`
  unfoldable pub do_retry_for_status_codes : ℕ → ℕ → Sending W → Option (Reply × Sending W)
  do_retry_for_status_codes fuel cap s =
      status_loop fuel (record { attempts_made = 0; delay_count = 0; cap = cap }) (reply none none)
        s
