-- ===== src/Respond/Bodies.antt =====
-- autorest/responder.go: what is known of the response's body while it is read and closed.
use Prim.Native.String.{◌++◌}
use go_autorest.Prelude.{String, Bool, true, Option, none, some, ◌≡◌, ◌≢◌, refl, ◌∙◌, if-intro}
use go_autorest.Respond.Body.{
  Server, Body, nil_body, server_body, memory, Answer, Failure, plain, Held, Ended, done, fails,
  panics, Responder, then_if_done, with_server, with_body, copy_read, read_server, read_then,
  close_body,
}
use go_autorest.Respond.Decorators.{
  copying, discarded, discarding, closed_by, close_after, closing as closing_of,
  closing_if_error as closing_if_error_of,
}

-- The body is the server's, or a text, which only stands for a closed one.
pub data IsKept : Body → Server → Type 0 where
  sent : {v : Server} → IsKept server_body v
  held : {v : Server} {text : String} → v.closed ≡ true → IsKept (memory text) v

pub IsKept-server : (b : Body) (v v' : Server) → v'.closed ≡ v.closed → IsKept b v → IsKept b v'
IsKept-server nil_body v v' e k = elim k [ ]
IsKept-server server_body v v' e sent = sent
IsKept-server (memory text) v v' e (held c) = held (e ∙ c)

pub drained-IsKept : {text : String} {v : Server} → IsKept (memory text) v → IsKept (memory "") v
drained-IsKept (held c) = held c

pub IsKept-closed : (b : Body) (v v' : Server) → v'.closed ≡ true → IsKept b v → IsKept b v'
IsKept-closed nil_body v v' c k = elim k [ ]
IsKept-closed server_body v v' c sent = sent
IsKept-closed (memory text) v v' c (held e) = held c

-- where `seen`, the server's body is closed
pub record IsSound (seen : Bool) (a : Answer) : Type 0 where
  pub kept : IsKept a.body a.server
  pub closed : seen ≡ true → a.server.closed ≡ true

pub weaker : (seen : Bool) (a : Answer) → IsSound true a → IsSound seen a
weaker seen a h = record { kept = h.kept; closed = λ _. h.closed refl }

module _ {T : Type 0} where
  pub record IsGood (seen : Bool) (o : Ended × Held T) : Type 0 where
    pub returns : o.0 ≢ panics
    pub sound : IsSound seen o.1.answer

  pub copy_read-answer : (text : String) (s : Held T) → (copy_read text s).answer ≡ s.answer
  copy_read-answer text s =
      if-intro (λ (x : Held T). x.answer ≡ s.answer) s.answer.tees (λ _. refl) (λ _. refl)

  -- closing a body closes the server's
  pub close_body-closes :
      (b : Body) (s : Held T)
      → IsKept b s.answer.server
      → (close_body b s).1.answer.server.closed ≡ true
  unfolding close_body
  close_body-closes nil_body s k = elim k [ ]
  close_body-closes server_body s sent = refl
  close_body-closes (memory text) s (held c) = c

  abbrev pub emptied : Held T → Held T
  emptied s = with_server (record s.answer.server { left = "" }) s

  abbrev pub drained : Held T → Held T
  drained s = record s { answer = record s.answer { body = memory "" } }

  abbrev pub teed : Held T → Held T
  teed s = record s { answer = record s.answer { tees = true } }

  -- what is known of the body `b` that a decorator holds, and of the response
  pub record IsHeld (seen : Bool) (b : Body) (s : Held T) : Type 0 where
    pub own : IsKept b s.answer.server
    pub sound : IsSound seen s.answer

  pub copy_read-IsHeld :
      (seen : Bool) (b : Body) (text : String) (s : Held T)
      → IsHeld seen b s
      → IsHeld seen b (copy_read text s)
  copy_read-IsHeld seen b text s h =
      if-intro (IsHeld seen b) s.answer.tees
        (λ _. record {
          own = h.own;
          sound = record { kept = h.sound.kept; closed = h.sound.closed };
        })
        (λ _. h)

  pub of_done : (seen : Bool) (s : Held T) → IsSound seen s.answer → IsGood seen (done, s)
  of_done seen s h = record { returns = λ e. absurd (cc); sound = h }

  pub of_fails :
      (seen : Bool) (e : Failure) (s : Held T) → IsSound seen s.answer → IsGood seen (fails e, s)
  of_fails seen e s h = record { returns = λ e'. absurd (cc); sound = h }

  pub read_then-IsGood :
      (seen : Bool) (b : Body) (s : Held T) (k : String × Option String → Responder T)
      → IsHeld seen b s
      → ((x : String × Option String) (s' : Held T) → IsHeld seen b s' → IsGood seen (k x s'))
      → IsGood seen (read_then b s k)
  unfolding read_then read_server
  read_then-IsGood seen nil_body s k h good = elim h.own [ ]
  read_then-IsGood seen server_body s k h good =
      if-intro (λ (x : (String × Option String) × Held T). IsGood seen (k x.0 x.1))
        s.answer.server.closed (λ _. good ("", some "http: read on closed response body") s h)
        (λ _.
          good (s.answer.server.left, s.answer.server.fails)
            (copy_read s.answer.server.left (emptied s))
            (copy_read-IsHeld seen server_body s.answer.server.left (emptied s) (record {
              own = sent;
              sound = record {
                kept =
                    IsKept-server s.answer.body s.answer.server (emptied s).answer.server refl
                      h.sound.kept;
                closed = h.sound.closed;
              };
            })))
  read_then-IsGood seen (memory text) s k h good =
      good (text, none) (copy_read text (drained s))
        (copy_read-IsHeld seen (memory text) text (drained s) (record {
          own = h.own;
          sound = record { kept = drained-IsKept h.own; closed = h.sound.closed };
        }))

  pub copying-IsGood :
      (seen : Bool) (b : Body) (s : Held T) → IsSound seen s.answer → IsGood seen (copying b s)
  copying-IsGood seen nil_body s h = of_done seen s h
  copying-IsGood seen server_body s h =
      of_done seen (teed s) (record { kept = h.kept; closed = h.closed })
  copying-IsGood seen (memory text) s h =
      of_done seen (teed s) (record { kept = h.kept; closed = h.closed })

  pub discarded-IsGood :
      (seen : Bool) (b : Body) (x : String × Option String) (s : Held T)
      → IsHeld seen b s
      → IsGood seen (discarded x s)
  discarded-IsGood seen b (text, none) s h = of_done seen s h.sound
  discarded-IsGood seen b (text, some e) s h =
      of_fails seen (plain ("Error discarding the response body: " ++ e)) s h.sound

  pub discarding-IsGood :
      (seen : Bool) (b : Body) (s : Held T) → IsHeld seen b s → IsGood seen (discarding b s)
  discarding-IsGood seen nil_body s h = of_done seen s h.sound
  discarding-IsGood seen server_body s h =
      read_then-IsGood seen server_body s discarded h (discarded-IsGood seen server_body)
  discarding-IsGood seen (memory text) s h =
      read_then-IsGood seen (memory text) s discarded h (discarded-IsGood seen (memory text))

  -- once closed, whatever was known of the server's body
  pub close_body-IsSound :
      (seen : Bool) (b : Body) (s : Held T)
      → IsHeld seen b s
      → IsSound true (close_body b s).1.answer
  unfolding close_body
  close_body-IsSound seen nil_body s h = elim h.own [ ]
  close_body-IsSound seen server_body s h = record {
    kept =
        IsKept-closed s.answer.body s.answer.server (close_body server_body s).1.answer.server refl
          h.sound.kept;
    closed = λ _. refl;
  }
  close_body-IsSound seen (memory text) s h = record {
    kept = h.sound.kept;
    closed = λ _. close_body-closes (memory text) s h.own;
  }

  pub closed_by-IsGood :
      (e : Ended) (x : Option String × Held T)
      → e ≢ panics
      → IsSound true x.1.answer
      → IsGood true (closed_by e x)
  closed_by-IsGood e (none, s) r h = record { returns = r; sound = h }
  closed_by-IsGood e (some m, s) r h =
      of_fails true (plain ("Error closing the response body: " ++ m)) s h

  pub close_after-IsGood :
      (e : Ended) (seen : Bool) (b : Body) (s : Held T)
      → e ≢ panics
      → IsHeld seen b s
      → IsGood true (close_after e b s)
  close_after-IsGood e seen nil_body s r h = elim h.own [ ]
  close_after-IsGood e seen server_body s r h =
      closed_by-IsGood e (close_body server_body s) r (close_body-IsSound seen server_body s h)
  close_after-IsGood e seen (memory text) s r h =
      closed_by-IsGood e (close_body (memory text) s) r (close_body-IsSound seen (memory text) s h)

  pub own_body : (seen : Bool) (s : Held T) → IsSound seen s.answer → IsHeld seen s.answer.body s
  own_body seen s h = record { own = h.kept; sound = h }

  pub closing_of-IsGood :
      (seen : Bool) (o : Ended × Held T) → IsGood seen o → IsGood true (closing_of o)
  closing_of-IsGood seen (done, s) h =
      close_after-IsGood done seen s.answer.body s h.returns (own_body seen s h.sound)
  closing_of-IsGood seen (fails e, s) h =
      close_after-IsGood (fails e) seen s.answer.body s h.returns (own_body seen s h.sound)
  closing_of-IsGood seen (panics, s) h = absurd (h.returns refl)

  pub closing_if_error_of-IsGood :
      (seen : Bool) (o : Ended × Held T) → IsGood seen o → IsGood seen (closing_if_error_of o)
  closing_if_error_of-IsGood seen (done, s) h = h
  closing_if_error_of-IsGood seen (fails e, s) h =
      let g =
        close_after-IsGood (fails e) seen s.answer.body s h.returns (own_body seen s h.sound) in
      record {
        returns = g.returns;
        sound = weaker seen (closing_if_error_of (fails e, s)).1.answer g.sound;
      }
  closing_if_error_of-IsGood seen (panics, s) h = h

  pub then-IsGood :
      (seen : Bool) (o : Ended × Held T) (k : Responder T)
      → IsGood seen o
      → ((s : Held T) → IsSound seen s.answer → IsGood seen (k s))
      → IsGood seen (then_if_done o k)
  then-IsGood seen (done, s) k h g = g s h.sound
  then-IsGood seen (fails e, s) k h g = h
  then-IsGood seen (panics, s) k h g = h

  -- a body that was read, closed, and replaced by what was read of it
  pub replaced_by :
      (seen : Bool) (b : Body) (text : String) (s : Held T)
      → IsHeld seen b s
      → IsSound seen (with_body (memory text) (close_body b s).1).answer
  replaced_by seen b text s h = record {
    kept = held (close_body-closes b s h.own);
    closed = λ _. close_body-closes b s h.own;
  }
