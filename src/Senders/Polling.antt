-- ===== src/Senders/Polling.antt =====
-- autorest/sender.go: how `DoPollForStatusCodes` ends.
use go_autorest.Prelude.{ℕ, zero, suc, Bool, false, none, List, ◌≡◌, subst, ℤ, arith, if-intro}
use go_autorest.Http.{Request, response_has_status_code}
use go_autorest.Errors.{Reply}
use go_autorest.Result.{Result, ok, err, panic}
use go_autorest.Senders.{
  Library, Sender, Sent, replied, sent_panic, out_of_fuel, do_poll_for_status_codes, poll_loop,
  polls, after_delay, poll_from, go_on, next_delay, begin_polls, polling_request,
}

-- What a reply of the decorated sender satisfies: without an error, it has none of the codes.
abbrev pub Settled : {W : Type 0} → List ℕ → Sent × W → Type 0
Settled codes (replied r, w) = r.failure ≡ none → response_has_status_code r.answer codes ≡ false
Settled codes (sent_panic, w) = Unit {0}
Settled codes (out_of_fuel, w) = Unit {0}

not_polls :
    (codes : List ℕ) (r : Reply)
    → polls codes r ≡ false
    → r.failure ≡ none
    → response_has_status_code r.answer codes ≡ false
not_polls codes r e fine = grind arith

module _ {W : Type 0} (codes : List ℕ) where
  go_on-Settled :
      (f : Reply → W → Sent × W) (o : Sent × W)
      → ((r : Reply) (w : W) → Settled codes (f r w))
      → Settled codes (go_on f o)
  go_on-Settled f (replied r, w) h = h r w
  go_on-Settled f (sent_panic, w) h = tt
  go_on-Settled f (out_of_fuel, w) h = tt

  module _ (wait : W → ℕ → Bool × W) (lib : Library) (delay : ℤ) (s : Sender W) where
    poll_loop-Settled :
        (fuel : ℕ) (req : Request) (r : Reply) (w : W)
        → Settled codes (poll_loop wait lib delay codes s fuel req r w)
    unfolding poll_loop
    poll_loop-Settled zero req r w = tt
    poll_loop-Settled (suc fuel) req r w =
        if-intro (Settled codes) (polls codes r)
          (λ e.
            go_on-Settled (poll_loop wait lib delay codes s fuel req)
              (after_delay wait (next_delay wait lib delay codes s r.answer) s req w)
              (poll_loop-Settled fuel req))
          (λ e. not_polls codes r e)

    begin_polls-Settled :
        (fuel : ℕ) (r : Reply) (req : Result Request) (w : W)
        → Settled codes (begin_polls wait lib delay codes s fuel r req w)
    begin_polls-Settled fuel r (ok req) w = poll_loop-Settled fuel req r w
    begin_polls-Settled fuel r (err e) w = λ h. absurd (cc)
    begin_polls-Settled fuel r panic w = tt

    poll_from-Settled :
        (fuel : ℕ) (r : Reply) (w : W) → Settled codes (poll_from wait lib delay codes s fuel r w)
    unfolding poll_from
    poll_from-Settled fuel r w =
        if-intro (Settled codes) (polls codes r)
          (λ e. begin_polls-Settled fuel r (polling_request wait lib delay codes s r.answer) w)
          (λ e. not_polls codes r e)

    do_poll-Settled :
        (fuel : ℕ) (req : Request) (w : W)
        → Settled codes (do_poll_for_status_codes wait lib delay codes s fuel req w)
    unfolding do_poll_for_status_codes
    do_poll-Settled fuel req w =
        go_on-Settled (poll_from wait lib delay codes s fuel) (s req w) (poll_from-Settled fuel)

    -- If `DoPollForStatusCodes` returns without an error, whatever the sender answers and however
    -- long it polls, the response's status is none of the codes.
    pub poll-leaves_codes :
        (fuel : ℕ) (req : Request) (w w' : W) (r : Reply)
        → do_poll_for_status_codes wait lib delay codes s fuel req w ≡ (replied r, w')
        → r.failure ≡ none
        → response_has_status_code r.answer codes ≡ false
    poll-leaves_codes fuel req w w' r e fine =
        subst (Settled codes) e (do_poll-Settled fuel req w) fine
