-- ===== src/Registration/Register.antt =====
-- autorest/azure/rp.go: `register`, which polls until the provider is registered.
use Prim.Native.String.{◌++◌}
use go_autorest.Prelude.{
  ℕ, zero, suc, ◌-◌, String, Bool, true, false, ◌||◌, Option, none, some, [], ◌∷◌, ltb, ◌==◌,
  if◌then◌else◌, str_eq, is_empty,
}
use go_autorest.Errors.{Error}
use go_autorest.Result.{Result, ok, err, panic}
use go_autorest.Preparers.Outgoing.{Outgoing, Value, Mapped}
use go_autorest.Respond.Body.{Answer, Failure, Held, Ended, done, fails, panics}
use go_autorest.Respond.Decorators.{Codec}
use go_autorest.Respond.Azure.{Decoding, Decoders}
use go_autorest.Respond.Chain.{azure_unless, json, closing, create_responder}
use go_autorest.Registration.Requests.{
  UrlLibrary, Provider, provider, no_provider, provider_panics, get_subscription, get_provider,
  path_parameters, register_request, poll_request,
}

-- The errors of the senders, of the code, of the responders, and of the context; a conflict that
-- was answered, and a failed registration with the conflict it is for.
pub data Problem : Type 0 where
  refusal : String → Problem
  message : String → Problem
  error : Error → Problem
  failure : Failure → Problem
  canceled : String → Problem
  conflict : Decoding → Problem
  not_registered : Problem → Decoding → Problem

-- What a sender gives: a response, or an error, with a response or without.
pub data Outcome : Type 0 where
  answered : Answer → Outcome
  refused : Option Answer → String → Outcome

-- The fields of the client that the code reads; a duration is not negative.
pub record Client : Type 0 where
  pub retry_attempts : ℕ
  pub polling_duration : ℕ
  pub polling_delay : ℕ
  pub skip_registration : Bool

-- The world: the client as a sender that retries for status codes, the clock,
-- `DelayWithRetryAfter`, `DelayForBackoff` by the polling delay, and `Context.Err`, "" for nil.
pub record Services (W : Type 0) : Type 0 where
  pub send : Outgoing → W → Outcome × W
  pub now : W → ℕ
  pub delay_with_retry_after : Answer → W → Bool × W
  pub delay_for_backoff : ℕ → W → Bool × W
  pub ctx_err : W → String

-- the provider's state, a pointer to a text
abbrev pub State : Type 0
State = Option String

-- How `register` ends: with no error or with one, or in a panic; or the fuel of the model runs out.
pub data End : Type 0 where
  no_error : End
  fails_with : Problem → End
  panicked : End
  out_of_fuel : End

abbrev pub is_registered : State → Bool
is_registered none = false
is_registered (some s) = str_eq s "Registered"

abbrev pub context_end : String → End
context_end e = if is_empty e then no_error else fails_with (canceled e)

module _ {W : Type 0} (lib : UrlLibrary) (codec : Codec State) (d : Decoders)
    (services : Services W) (client : Client) where
  -- the end, the provider's state and the world
  abbrev pub Step : Type 0
  Step = End × State × W

  -- The response is tested for its status, decoded into the provider, and closed.
  abbrev pub responded : Ended × Held State → W → (State → W → Step) → Step
  responded (done, s) w k = k s.value w
  responded (fails e, s) w k = (fails_with (failure e), s.value, w)
  responded (panics, s) w k = (panicked, s.value, w)

  unfoldable pub respond : State → Answer → W → (State → W → Step) → Step
  respond state answer w k =
      responded
        (create_responder codec d (azure_unless (200 ∷ []) ∷ json ∷ closing ∷ [])
          (record { answer = answer; value = state; copied = "" }))
        w k

  abbrev pub sent : State → Outcome × W → (Answer → State → W → Step) → Step
  sent state (refused a e, w) k = (fails_with (refusal e), state, w)
  sent state (answered a, w) k = respond state a w (k a)

  abbrev pub send_then : State → Result Outgoing → W → (Answer → State → W → Step) → Step
  send_then state (ok r) w k = sent state (services.send r w) k
  send_then state (err e) w k = (fails_with (error e), state, w)
  send_then state panic w k = (panicked, state, w)

  abbrev pub in_time : ℕ → W → Bool
  in_time start w =
      client.polling_duration == 0 || ltb (services.now w - start) client.polling_duration

  -- after the loop
  unfoldable pub after_polling : ℕ → State → W → Step
  after_polling start state w = if in_time start w then (no_error, state, w) else (
    fails_with
        (message "polling for resource provider registration has exceeded the polling duration"),
    state,
    w,
  )

  -- a delay that passes leads on, one that is canceled ends
  abbrev pub paused : State → (W → Step) → Bool × W → Step
  paused state k (true, w) = k w
  paused state k (false, w) = (context_end (services.ctx_err w), state, w)

  abbrev pub backed_off : State → (W → Step) → Bool × W → Step
  backed_off state k (true, w) = k w
  backed_off state k (false, w) = paused state k (services.delay_for_backoff client.polling_delay w)

  -- the state after a poll: the loop is left, or goes on after a delay
  unfoldable pub after_poll : ℕ → (State → W → Step) → Answer → State → W → Step
  unfolding after_polling
  after_poll start k answer state w =
      if is_registered state
      then after_polling start state w
      else backed_off state (k state) (services.delay_with_retry_after answer w)

  -- the loop, which asks for the state at `base` until the time is over
  unfoldable pub poll : ℕ → ℕ → String → Mapped Value → State → W → Step
  unfolding after_poll
  poll zero start base parameters state w = (out_of_fuel, state, w)
  poll (suc fuel) start base parameters state w =
      if in_time start w
      then send_then state (poll_request lib base parameters) w
          (after_poll start (poll fuel start base parameters))
      else after_polling start state w

  abbrev pub start_polling : ℕ → String → Mapped Value → Answer → State → W → Step
  start_polling fuel base parameters answer state w =
      poll fuel (services.now w) base parameters state w

  unfoldable pub register_at : ℕ → String → Mapped Value → W → Step
  unfolding poll
  register_at fuel base parameters w =
      send_then none (register_request lib base parameters) w (start_polling fuel base parameters)

  abbrev pub with_provider : ℕ → String → String → Provider → W → Step
  with_provider fuel base sub_id (provider name) w =
      register_at fuel base (path_parameters lib name sub_id) w
  with_provider fuel base sub_id no_provider w = (
    fails_with (
        message (
          "missing parameter provider to register resource provider: "
          ++ "provider was not found in the response")),
    none,
    w,
  )
  with_provider fuel base sub_id provider_panics w = (panicked, none, w)

  -- `register`, for the scheme and host, and the path, of the original request's URL
  unfoldable pub register : ℕ → String → String → Decoding → W → Step
  unfolding register_at
  register fuel base path re w =
      let sub_id = get_subscription path in
      if is_empty sub_id
      then (
        fails_with (message "missing parameter subscriptionID to register resource provider"),
        none,
        w,
      )
      else with_provider fuel base sub_id (get_provider re) w
