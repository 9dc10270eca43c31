-- ===== src/Sender.antt =====
-- autorest/sender.go: decorated senders, the delays, and the retry loops.
pub mod Status
pub mod Backoff
pub mod Bodies
pub mod Bounds
mod Scenarios
use go_autorest.Prelude.{
  ℕ, zero, suc, ◌+◌, ◌-◌, ◌*◌, ◌/◌, ◌^◌, String, Bool, true, false, not, ◌&&◌, ◌||◌, Option, none,
  some, List, [], ◌∷◌, ℤ, pos, negsuc, ltb, leb, ◌==◌, if◌then◌else◌,
}
use go_autorest.Http.{Response, response_has_status_code}
use go_autorest.Errors.{Error, Reply, external, is_token_refresh_error}
use go_autorest.Retriable.{Bytes, RetriableRequest, readable_body, prepare, consume}

-- `DecorateSender`, over any type of senders
unfoldable pub decorate_sender {ℓ} : {S : Type ℓ} → S → List (S → S) → S
decorate_sender s [] = s
decorate_sender s (decorate ∷ decorators) = decorate_sender (decorate s) decorators

abbrev pub reply : Option Response → Option Error → Reply
reply r e = record { answer = r; failure = e }

-- a duration of one second, in nanoseconds
abbrev pub second : ℕ
second = 1000000000

-- The delay of `DelayForBackoffWithCap`, for a backoff that is not negative: the backoff doubled
-- for each attempt, cut to whole seconds, and at most a positive cap. The floating-point product is
-- taken as exact, which it is below 2^53 seconds for backoffs of whole seconds.
unfoldable pub backoff_delay : ℕ → ℕ → ℕ → ℕ
backoff_delay backoff cap attempt =
    let d = backoff * 2 ^ attempt / second * second in if ltb 0 cap && ltb cap d then cap else d

-- What the loops use of the world: the sender under them, that is given a request body and says how
-- much of it is left; a wait, false if it was canceled; `Context.Err`; the clock.
pub record Env (W : Type 0) : Type 0 where
  pub transmit : W → Bytes → Reply × Bytes × W
  pub wait : W → ℕ → Bool × W
  pub ctx_err : W → Option Error
  -- strconv.Atoi (0 where it fails), time.Parse of an RFC 1123 date and time.Now, in nanoseconds
  pub atoi : String → ℤ
  pub parse_rfc1123 : String → Option ℕ
  pub now : W → ℕ

-- The request, the world, and the bodies given to the sender, the last one first.
pub record Sending (W : Type 0) : Type 0 where
  pub request : RetriableRequest
  pub world : W
  pub sent : List Bytes

-- One attempt: `Prepare` fails, or the sender replies.
pub data Attempt (W : Type 0) : Type 0 where
  refused : Error → Sending W → Attempt W
  replied : Reply → Sending W → Attempt W

-- A round of a loop returns, or goes on.
pub data Round (W : Type 0) : Type 0 where
  finish : Reply → Sending W → Round W
  retry : Reply → Sending W → Round W

abbrev pub is_some {ℓ} : {A : Type ℓ} → Option A → Bool
is_some none = false
is_some (some a) = true

module _ {W : Type 0} (env : Env W) where
  unfoldable pub transmit_prepared : Option String × RetriableRequest → Sending W → Attempt W
  transmit_prepared (some e, rr) s = refused (external e) (record s { request = rr })
  transmit_prepared (none, rr) s =
      let (answer, left, w) = env.transmit s.world (readable_body rr) in
      replied answer
        (record { request = consume left rr; world = w; sent = readable_body rr ∷ s.sent })

  -- `rr.Prepare()` and `s.Do(rr.Request())`
  unfoldable pub attempt : Sending W → Attempt W
  unfolding transmit_prepared
  attempt s = transmit_prepared (prepare s.request) s

  -- the wait after a failed attempt
  unfoldable pub after_wait : Option Response → Reply → Sending W → Bool × W → Round W
  after_wait canceled last s (true, w) = retry last (record s { world = w })
  after_wait canceled last s (false, w) =
      finish (reply canceled (env.ctx_err w)) (record s { world = w })

  -- The body of the loop of `DoRetryForAttempts`, and of `DoRetryForDuration`.
  unfoldable pub retry_round : ℕ → ℕ → Reply → Attempt W → Round W
  retry_round backoff n last (refused e s) = finish (reply last.answer (some e)) s
  retry_round backoff n last (replied answer s) =
      if is_some answer.failure
      then after_wait none answer s (env.wait s.world (backoff_delay backoff 0 n))
      else finish answer s

  -- `DoRetryForAttempts`: the attempts left, the number of this one, and the last reply
  unfoldable pub retry_for_attempts : ℕ → ℕ → ℕ → Reply → Sending W → Reply × Sending W
  retry_for_attempts backoff zero n last s = (last, s)
  retry_for_attempts backoff (suc k) n last s = elim (retry_round backoff n last (attempt s)) [
    | finish r s' ↦ (r, s')
    | retry r s' ↦ retry_for_attempts backoff k (n + 1) r s'
  ]

  unfoldable pub do_retry_for_attempts : ℕ → ℕ → Sending W → Reply × Sending W
  do_retry_for_attempts attempts backoff s =
      retry_for_attempts backoff attempts 0 (reply none none) s

  -- `DoRetryForDuration`: fuel, the end of the time, and the number of the attempt
  unfoldable pub retry_until : ℕ → ℕ → ℕ → ℕ → Reply → Sending W → Option (Reply × Sending W)
  retry_until zero end_time backoff n last s = none
  retry_until (suc fuel) end_time backoff n last s = elim (ltb (env.now s.world) end_time) [
    | false ↦ some (last, s)
    | true ↦ elim (retry_round backoff n last (attempt s)) [
      | finish r s' ↦ some (r, s')
      | retry r s' ↦ retry_until fuel end_time backoff (n + 1) r s'
    ]
  ]

  unfoldable pub do_retry_for_duration : ℕ → ℕ → ℕ → Sending W → Option (Reply × Sending W)
  do_retry_for_duration fuel d backoff s =
      retry_until fuel (env.now s.world + d) backoff 0 (reply none none) s

  -- the duration that a Retry-After header asks for, 0 where there is none to wait for
  abbrev until_date : Option ℕ → ℕ → ℕ
  until_date none now = 0
  until_date (some t) now = t - now

  abbrev retry_after : ℤ → Option ℕ → ℕ → ℕ
  retry_after (pos zero) date now = until_date date now
  retry_after (pos (suc n)) date now = suc n * second
  retry_after (negsuc n) date now = until_date date now

  -- `DelayWithRetryAfter`
  unfoldable pub delay_with_retry_after : Option Response → W → Bool × W
  delay_with_retry_after none w = (false, w)
  delay_with_retry_after (some resp) w =
      let ra = resp.header "Retry-After" in
      let dur = retry_after (env.atoi ra) (env.parse_rfc1123 ra) (env.now w) in
      if ltb 0 dur then env.wait w dur else (false, w)
