-- ===== src/Adal/Attempts.antt =====
-- autorest/adal/token.go: what the attempts of `retryForIMDS` send, and how long it waits.
use go_autorest.Prelude.{
  ℕ, zero, suc, ◌+◌, ◌-◌, ◌*◌, ◌^◌, ◌≤◌, ◌≡◌, refl, ap, sym, subst, ◌≢◌, String, Bool, true, false,
  List, [], ◌∷◌, ◌⊎◌, inl, inr, ℤ, ltb, if◌then◌else◌, if-intro, length, arith,
}
use native.Mathlib.Nat.{pow-le-pow_right}
use go_autorest.Errors.{Reply}
use go_autorest.Adal.Types.{TokenRequest, Env, longer, seconds}
use go_autorest.Adal.Imds.{
  Run, max_delay, next_delay, attempts_of, no_reply, accepts, send_once, after_delay, attempt_imds,
  retry_for_imds,
}

-- The rule of the loop. `Inv` holds before an attempt, by the attempts left and made and by the
-- delay; `Final` holds where the loop is left.
module _ {W : Type 0} (env : Env W) (Inv : ℕ → ℕ → ℕ → Run W → Type 0) (Final : Run W → Type 0)
    (ends : (made delay : ℕ) (s : Run W) → Inv 0 made delay s → Final s)
    (accepted : (k made delay : ℕ) (s : Run W)
      → Inv (suc k) made delay s
      → Final (send_once env s).1)
    (canceled : (k made delay : ℕ) (s : Run W) (w : W)
      → Inv (suc k) made delay s
      → let t = (send_once env s).1 in
        let d = next_delay (suc made) delay in
        Final (record t { world = w; waited = d ∷ t.waited }))
    (goes_on : (k made delay : ℕ) (s : Run W) (w : W)
      → Inv (suc k) made delay s
      → let t = (send_once env s).1 in
        let d = next_delay (suc made) delay in
        Inv k (suc made) d (record t { world = w; waited = d ∷ t.waited })) where
  after_delay-Final :
      (d : ℕ) (next : Reply → Run W → Reply × Run W) (r : Reply) (s : Run W) (x : Bool × W)
      → ((w : W) → Final (record s { world = w; waited = d ∷ s.waited }))
      → ((w : W) → Final (next r (record s { world = w; waited = d ∷ s.waited })).1)
      → Final (after_delay env d next r s x).1
  after_delay-Final d next r s (true, w) stop more = more w
  after_delay-Final d next r s (false, w) stop more = stop w

  attempts-Final :
      (k made delay : ℕ) (r : Reply) (s : Run W)
      → Inv k made delay s
      → Final (attempt_imds env k made delay r s).1
  unfolding attempt_imds
  attempts-Final zero made delay r s h = ends made delay s h
  attempts-Final (suc k) made delay r s h =
      let d = next_delay (suc made) delay in
      let q = (send_once env s).0 in
      let t = (send_once env s).1 in
      if-intro (λ (x : Reply × Run W). Final x.1) (accepts q) (λ _. accepted k made delay s h)
        (λ _.
          after_delay-Final d (attempt_imds env k (suc made) d) q t (env.wait t.world d)
            (λ w. canceled k made delay s w h)
            (λ w. attempts-Final k (suc made) d q _ (goes_on k made delay s w h)))

abbrev pub AllWithin : ℕ → List ℕ → Type 0
AllWithin n [] = Unit {0}
AllWithin n (d ∷ ds) = (longer d n ≡ false) × AllWithin n ds

-- at most n bodies sent, no more waits than that, and none of more than a minute
pub record Bounded {W : Type 0} (n : ℕ) (s : Run W) : Type 0 where
  pub sends : length s.sent ≤ n
  pub waits : length s.waited ≤ length s.sent
  pub short : AllWithin max_delay s.waited

-- the delay after an attempt: 2, 6, 14, 30 seconds, and then always 60
abbrev pub delay_after : ℕ → ℕ
delay_after n = if ltb 60 (2 ^ (suc n) - 2) then max_delay else (2 ^ (suc n) - 2) * 1000000000

abbrev pub schedule : ℕ → List ℕ
schedule zero = []
schedule (suc n) = delay_after (suc n) ∷ schedule n

-- the body stands in the first request, and every later one is empty
abbrev pub OnlyFirst : String → List String → Type 0
OnlyFirst b [] = Unit {0}
OnlyFirst b (x ∷ []) = x ≡ b
OnlyFirst b (x ∷ y ∷ ys) = (x ≡ "") × OnlyFirst b (y ∷ ys)

next_delay-short : (n d : ℕ) → longer (next_delay n d) max_delay ≡ false
unfolding next_delay longer
next_delay-short n d = ground arith

double : (n : ℕ) → 2 ^ (suc n) ≡ 2 * 2 ^ n
double n = omega arith

-- up to the 33rd attempt the delay does not wrap
next_delay_lem : (n : ℕ) → suc n ≤ 33 → next_delay (suc n) (delay_after n) ≡ delay_after (suc n)
unfolding next_delay longer seconds
next_delay_lem n l =
    let p : 2 ^ (suc n) ≤ 2 ^ 33 = pow-le-pow_right (omega arith) l in
    ground (arith, double n, double (suc n))

scheduled :
    (delay made : ℕ) (waited : List ℕ)
    → suc made ≤ 33
    → waited ≡ schedule made
    → delay ≡ delay_after made
    → (next_delay (suc made) delay ∷ waited) ≡ schedule (suc made)
scheduled delay made waited l a c =
    rw c (rw (next_delay_lem made l) (ap (λ l. delay_after (suc made) ∷ l) a))

-- nothing is sent yet, or the body was sent and read
abbrev Unsent : {W : Type 0} → String → Run W → Type 0
Unsent b s = (s.sent ≡ []) × (s.request.body ≡ b)

abbrev Sent : {W : Type 0} → String → Run W → Type 0
Sent b s = OnlyFirst b s.sent × (s.request.body ≡ "") × (s.sent ≢ [])

OnlyFirst-later :
    (b x : String) (xs : List String) → x ≡ "" → OnlyFirst b xs → xs ≢ [] → OnlyFirst b (x ∷ xs)
OnlyFirst-later b x [] e h ne = absurd (ne refl)
OnlyFirst-later b x (y ∷ ys) e h ne = (e, h)

OnlyFirst-send :
    {W : Type 0} (b : String) (s : Run W)
    → Unsent b s ⊎ Sent b s
    → OnlyFirst b (s.request.body ∷ s.sent)
OnlyFirst-send b s (inl (none_yet, same)) = rw none_yet same
OnlyFirst-send b s (inr (only, empty, some_sent)) =
    OnlyFirst-later b s.request.body s.sent empty only some_sent

OnlyFirst-before :
    {W : Type 0} (b : String) (s : Run W) → Unsent b s ⊎ Sent b s → OnlyFirst b s.sent
OnlyFirst-before b s (inl (none_yet, same)) = rw none_yet tt
OnlyFirst-before b s (inr (only, empty, some_sent)) = only

module _ {W : Type 0} (env : Env W) where
  -- `retryForIMDS` sends at most as many requests as its attempts, of which there are 5 where the
  -- number given is below 1; it waits at most once after each, and never more than a minute.
  pub imds-Bounded :
      (req : TokenRequest) (max_attempts : ℤ) (w : W)
      → Bounded (attempts_of max_attempts) (retry_for_imds env req max_attempts w).1
  unfolding retry_for_imds send_once
  imds-Bounded req max_attempts w =
      let n = attempts_of max_attempts in
      attempts-Final env
        (λ k made delay s.
          (length s.sent + k ≤ n)
          × (length s.waited ≤ length s.sent)
          × AllWithin max_delay s.waited)
        (Bounded n) (λ made delay s (a, b, c). record { sends = omega arith; waits = b; short = c })
        (λ k made delay s (a, b, c). record { sends = omega arith; waits = omega arith; short = c })
        (λ k made delay s v (a, b, c). record {
          sends = omega arith;
          waits = omega arith;
          short = (next_delay-short (suc made) delay, c);
        })
        (λ k made delay s v (a, b, c).
          (omega arith, omega arith, (next_delay-short (suc made) delay, c)))
        n 0 0 no_reply (record { request = req; world = w; sent = []; waited = [] })
        (omega arith, omega arith, tt)

  -- Where there are at most 33 attempts, the delays that `retryForIMDS` waits for are those of the
  -- schedule, in order: 2, 6, 14 and 30 seconds, and then a minute each time.
  pub imds_schedule :
      (req : TokenRequest) (max_attempts : ℤ) (w : W)
      → attempts_of max_attempts ≤ 33
      → let s = (retry_for_imds env req max_attempts w).1 in s.waited ≡ schedule (length s.waited)
  unfolding retry_for_imds send_once
  imds_schedule req max_attempts w few =
      attempts-Final env
        (λ k made delay s.
          (s.waited ≡ schedule made)
          × (length s.waited ≡ made)
          × (delay ≡ delay_after made)
          × (made + k ≤ 33))
        (λ s. s.waited ≡ schedule (length s.waited)) (λ made delay s (a, b, c, l). rw b a)
        (λ k made delay s (a, b, c, l). rw b a)
        (λ k made delay s v (a, b, c, l).
          subst (λ n. (next_delay (suc made) delay ∷ s.waited) ≡ schedule (suc n)) (sym b)
            (scheduled delay made s.waited (omega arith) a c))
        (λ k made delay s v (a, b, c, l). (
          scheduled delay made s.waited (omega arith) a c,
          omega arith,
          rw c (next_delay_lem made (omega arith)),
          omega arith,
        ))
        (attempts_of max_attempts) 0 0 no_reply
        (record { request = req; world = w; sent = []; waited = [] })
        (refl, refl, refl, omega arith)

  -- Where the sender reads each body to its end, `retryForIMDS` sends the request's body in its
  -- first attempt only: the body of every later attempt is empty.
  pub imds_body_sent_once :
      (req : TokenRequest) (max_attempts : ℤ) (w : W)
      → ((v : W) (r : TokenRequest) → (env.send v r).1 ≡ "")
      → OnlyFirst req.body (retry_for_imds env req max_attempts w).1.sent
  unfolding retry_for_imds send_once
  imds_body_sent_once req max_attempts w reads =
      attempts-Final env (λ k made delay s. Unsent req.body s ⊎ Sent req.body s)
        (λ s. OnlyFirst req.body s.sent) (λ made delay s h. OnlyFirst-before req.body s h)
        (λ k made delay s h. OnlyFirst-send req.body s h)
        (λ k made delay s v h. OnlyFirst-send req.body s h)
        (λ k made delay s v h. inr (OnlyFirst-send req.body s h, reads s.world s.request, λ e. cc))
        (attempts_of max_attempts) 0 0 no_reply
        (record { request = req; world = w; sent = []; waited = [] }) (inl (refl, refl))
