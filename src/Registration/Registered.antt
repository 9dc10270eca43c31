-- ===== src/Registration/Registered.antt =====
-- autorest/azure/rp.go: a provider that `register` returns no error for is registered.
use go_autorest.Prelude.{
  ℕ, zero, suc, String, Bool, true, false, ◌≡◌, ◌≢◌, none, is_empty, if-intro, refl, ◌⊎◌, inl, inr,
}
use go_autorest.Result.{Result, ok, err, panic}
use go_autorest.Preparers.Outgoing.{Outgoing, Value, Mapped}
use go_autorest.Respond.Body.{Answer, Held, Ended, done, fails, panics}
use go_autorest.Respond.Decorators.{Codec}
use go_autorest.Respond.Azure.{Decoding, Decoders}
use go_autorest.Registration.Requests.{
  UrlLibrary, Provider, provider, no_provider, provider_panics, get_subscription, get_provider,
  path_parameters, register_request, poll_request,
}
use go_autorest.Registration.Register.{
  Outcome, answered, refused, Client, Services, State, no_error, is_registered, context_end, Step,
  responded, respond, sent, send_then, in_time, after_polling, paused, backed_off, after_poll, poll,
  register_at, with_provider, register,
}

module _ {W : Type 0} (lib : UrlLibrary) (codec : Codec State) (d : Decoders)
    (services : Services W) (client : Client) where
  -- no error only for a provider in the state Registered
  abbrev pub IsSettled : Step lib codec d services client → Type 0
  IsSettled (e, state, w) = e ≡ no_error → is_registered state ≡ true

  -- Context.Err: once the context is done, it is not nil; a delay is canceled when it is done.
  pub record CancelsWithError : Type 0 where
    pub cancels :
        (w : W)
        → (services.delay_for_backoff client.polling_delay w).0 ≡ false
        → is_empty (services.ctx_err (services.delay_for_backoff client.polling_delay w).1) ≡ false

  responded-IsSettled :
      (o : Ended × Held State) (w : W) (k : State → W → Step lib codec d services client)
      → ((state : State) (w' : W) → IsSettled (k state w'))
      → IsSettled (responded lib codec d services client o w k)
  responded-IsSettled (done, s) w k h = h s.value w
  responded-IsSettled (fails e, s) w k h = λ q. absurd (cc)
  responded-IsSettled (panics, s) w k h = λ q. absurd (cc)

  sent-IsSettled :
      (state : State) (o : Outcome × W) (k : Answer → State → W → Step lib codec d services client)
      → ((a : Answer) (state' : State) (w : W) → IsSettled (k a state' w))
      → IsSettled (sent lib codec d services client state o k)
  unfolding respond
  sent-IsSettled state (refused a e, w) k h = λ q. absurd (cc)
  sent-IsSettled state (answered a, w) k h = responded-IsSettled _ w (k a) (h a)

  send_then-IsSettled :
      (state : State) (r : Result Outgoing) (w : W)
      (k : Answer → State → W → Step lib codec d services client)
      → ((a : Answer) (state' : State) (w' : W) → IsSettled (k a state' w'))
      → IsSettled (send_then lib codec d services client state r w k)
  send_then-IsSettled state (ok r) w k h = sent-IsSettled state (services.send r w) k h
  send_then-IsSettled state (err e) w k h = λ q. absurd (cc)
  send_then-IsSettled state panic w k h = λ q. absurd (cc)

  after_polling-IsSettled :
      (start : ℕ) (state : State) (w : W)
      → (in_time lib codec d services client start w ≡ false) ⊎ (is_registered state ≡ true)
      → IsSettled (after_polling lib codec d services client start state w)
  unfolding after_polling
  after_polling-IsSettled start state w (inl late) = rw late (λ q. absurd (cc))
  after_polling-IsSettled start state w (inr r) =
      if-intro IsSettled (in_time lib codec d services client start w) (λ _ q. r) (λ _ q. r)

  context_end-error : (m : String) → is_empty m ≡ false → context_end m ≢ no_error
  context_end-error m e f = absurd (cc)

  paused-IsSettled :
      (state : State) (k : W → Step lib codec d services client) (x : Bool × W)
      → (x.0 ≡ false → is_empty (services.ctx_err x.1) ≡ false)
      → ((w : W) → IsSettled (k w))
      → IsSettled (paused lib codec d services client state k x)
  paused-IsSettled state k (true, w) c h = h w
  paused-IsSettled state k (false, w) c h =
      λ q. absurd (context_end-error (services.ctx_err w) (c refl) q)

  backed_off-IsSettled :
      CancelsWithError
      → (state : State) (k : W → Step lib codec d services client) (x : Bool × W)
      → ((w : W) → IsSettled (k w))
      → IsSettled (backed_off lib codec d services client state k x)
  backed_off-IsSettled c state k (true, w) h = h w
  backed_off-IsSettled c state k (false, w) h =
      paused-IsSettled state k (services.delay_for_backoff client.polling_delay w) (c.cancels w) h

  poll-IsSettled :
      CancelsWithError
      → (fuel start : ℕ) (base : String) (parameters : Mapped Value) (state : State) (w : W)
      → IsSettled (poll lib codec d services client fuel start base parameters state w)
  unfolding poll after_poll
  poll-IsSettled c zero start base parameters state w = λ q. absurd (cc)
  poll-IsSettled c (suc fuel) start base parameters state w =
      if-intro IsSettled (in_time lib codec d services client start w)
        (λ _.
          send_then-IsSettled state (poll_request lib base parameters) w
            (after_poll lib codec d services client start
              (poll lib codec d services client fuel start base parameters))
            (λ a state' w'.
              if-intro IsSettled (is_registered state')
                (λ r. after_polling-IsSettled start state' w' (inr r))
                (λ _.
                  backed_off-IsSettled c state'
                    (poll lib codec d services client fuel start base parameters state')
                    (services.delay_with_retry_after a w')
                    (λ w''. poll-IsSettled c fuel start base parameters state' w''))))
        (λ late. after_polling-IsSettled start state w (inl late))

  with_provider-IsSettled :
      CancelsWithError
      → (fuel : ℕ) (base sub_id : String) (x : Provider) (w : W)
      → IsSettled (with_provider lib codec d services client fuel base sub_id x w)
  unfolding register_at
  with_provider-IsSettled c fuel base sub_id (provider name) w =
      send_then-IsSettled none (register_request lib base (path_parameters lib name sub_id)) w _
        (λ a state w'.
          poll-IsSettled c fuel (services.now w') base (path_parameters lib name sub_id) state w')
  with_provider-IsSettled c fuel base sub_id no_provider w = λ q. absurd (cc)
  with_provider-IsSettled c fuel base sub_id provider_panics w = λ q. absurd (cc)

  -- Let a context whose delay is canceled have an error. If `register` returns no error, whatever
  -- the services answer, the last state that it decoded of the provider is "Registered".
  pub register-IsSettled :
      CancelsWithError
      → (fuel : ℕ) (base path : String) (re : Decoding) (w : W)
      → IsSettled (register lib codec d services client fuel base path re w)
  unfolding register
  register-IsSettled c fuel base path re w =
      if-intro IsSettled (is_empty (get_subscription path)) (λ _ q. absurd (cc))
        (λ _. with_provider-IsSettled c fuel base (get_subscription path) (get_provider re) w)
