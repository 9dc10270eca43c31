-- ===== src/Respond/Statuses.antt =====
-- autorest/responder.go, autorest/azure/azure.go: the status of a response that passes.
use go_autorest.Prelude.{
  ℕ, String, true, Option, none, some, List, [], ◌∷◌, ◌≡◌, refl, subst, if-intro, if◌then◌else◌,
  ◌++◌, ◌≢◌, ◌⊎◌, inl, inr, Bool-cases,
}
use go_autorest.Http.{contains_int}
use go_autorest.Respond.Body.{
  Body, nil_body, server_body, memory, Held, Ended, done, fails, panics, Responder, then_if_done,
  read_server, read_then, close_body,
}
use go_autorest.Respond.Decorators.{
  Codec, by_ignoring, copying, by_copying, discarding, by_discarding_body, close_after, closed_by,
  closing as closing_of, by_closing, closing_if_error as closing_if_error_of, by_closing_if_error,
  take_bytes, by_unmarshalling_bytes, take_json, by_unmarshalling_json, take_xml,
  by_unmarshalling_xml, unexpected, unexpected_read, with_error_unless_status_code,
}
use go_autorest.Respond.Azure.{Decoders, azure_error, azure_error_unless_status_code}
use go_autorest.Respond.Unchanged.{
  read_then-Keeps, copying-Keeps, discarding-Keeps, unexpected-Keeps, take_bytes-Keeps,
  take_json-Keeps, take_xml-Keeps, azure_error-Keeps, then-Keeps, closing_of-Keeps,
  closing_if_error_of-Keeps, tested-Keeps,
}
use go_autorest.Respond.Chain.{
  Decorator, ignoring, copying as copying_of, discarding as discarding_of, closing,
  closing_if_error, bytes, json, xml, unless_status, azure_unless, apply, decorate_responder,
  create_responder,
}

module _ {T : Type 0} where
  -- what ends well did so before it was decorated
  then-done : (k : Responder T) (o : Ended × Held T) → (then_if_done o k).0 ≡ done → o.0 ≡ done
  then-done k (done, s) e = refl
  then-done k (fails x, s) e = e
  then-done k (panics, s) e = e

  closed_by-done : (e : Ended) (x : Option String × Held T) → (closed_by e x).0 ≡ done → e ≡ done
  closed_by-done e (none, s) h = h
  closed_by-done e (some m, s) h = absurd (cc)

  close_after-done : (e : Ended) (b : Body) (s : Held T) → (close_after e b s).0 ≡ done → e ≡ done
  close_after-done e nil_body s h = h
  close_after-done e server_body s h = closed_by-done e (close_body server_body s) h
  close_after-done e (memory text) s h = closed_by-done e (close_body (memory text) s) h

  closing_of-done : (o : Ended × Held T) → (closing_of o).0 ≡ done → o.0 ≡ done
  closing_of-done (done, s) h = refl
  closing_of-done (fails e, s) h = close_after-done (fails e) s.answer.body s h
  closing_of-done (panics, s) h = h

  closing_if_error_of-done : (o : Ended × Held T) → (closing_if_error_of o).0 ≡ done → o.0 ≡ done
  closing_if_error_of-done (done, s) h = refl
  closing_if_error_of-done (fails e, s) h = close_after-done (fails e) s.answer.body s h
  closing_if_error_of-done (panics, s) h = h

  -- the status test fails unless the status is among the codes
  unexpected-done : (b : Body) (s : Held T) → (unexpected b s).0 ≢ done
  unfolding read_then read_server
  unexpected-done nil_body s e = absurd (cc)
  unexpected-done server_body s e =
      if-intro
        (λ (x : (String × Option String) × Held T). (unexpected_read server_body x.0 x.1).0 ≢ done)
        s.answer.server.closed (λ _ f. absurd (cc)) (λ _ f. absurd (cc)) e
  unexpected-done (memory text) s e = absurd (cc)

  azure_error-done : (d : Decoders) (b : Body) (s : Held T) → (azure_error d b s).0 ≢ done
  azure_error-done d nil_body s e = absurd (cc)
  azure_error-done d server_body s e = absurd (cc)
  azure_error-done d (memory text) s e = absurd (cc)

  tested-done :
      (codes : List ℕ) (k : Held T → Ended × Held T) (o : Ended × Held T)
      → ((s : Held T) → (k s).0 ≢ done)
      → (then_if_done o (λ s. if contains_int codes s.answer.status_code then (done, s) else k s)).0
        ≡ done
      → contains_int codes o.1.answer.status_code ≡ true
  tested-done codes k (done, s) h e = elim (Bool-cases (contains_int codes s.answer.status_code)) [
    | inl c ↦ c
    | inr c ↦ absurd (h s (subst (λ b. (if b then (done, s) else k s).0 ≡ done) c e))
  ]
  tested-done codes k (fails x, s) h e = absurd (cc)
  tested-done codes k (panics, s) h e = absurd (cc)

  module _ (codec : Codec T) (d : Decoders) where
    apply-Keeps :
        (x : Decorator) (r : Responder T) (s : Held T)
        → (apply codec d x r s).1.answer.status_code ≡ (r s).1.answer.status_code
    unfolding apply by_ignoring by_copying by_discarding_body by_closing by_closing_if_error
        by_unmarshalling_bytes by_unmarshalling_json by_unmarshalling_xml
        with_error_unless_status_code azure_error_unless_status_code
    apply-Keeps ignoring r s = refl
    apply-Keeps copying_of r s =
        then-Keeps (λ s'. copying s'.answer.body s') (r s) (λ s'. copying-Keeps s'.answer.body s')
    apply-Keeps discarding_of r s =
        then-Keeps (λ s'. discarding s'.answer.body s') (r s)
          (λ s'. discarding-Keeps s'.answer.body s')
    apply-Keeps closing r s = closing_of-Keeps (r s)
    apply-Keeps closing_if_error r s = closing_if_error_of-Keeps (r s)
    apply-Keeps bytes r s =
        then-Keeps (λ s'. read_then s'.answer.body s' (take_bytes codec)) (r s)
          (λ s'. read_then-Keeps s'.answer.body (take_bytes codec) (take_bytes-Keeps codec) s')
    apply-Keeps json r s =
        then-Keeps (λ s'. read_then s'.answer.body s' (take_json codec)) (r s)
          (λ s'. read_then-Keeps s'.answer.body (take_json codec) (take_json-Keeps codec) s')
    apply-Keeps xml r s =
        then-Keeps (λ s'. read_then s'.answer.body s' (take_xml codec)) (r s)
          (λ s'. read_then-Keeps s'.answer.body (take_xml codec) (take_xml-Keeps codec) s')
    apply-Keeps (unless_status codes) r s =
        let k : Responder T = λ s'. unexpected s'.answer.body s' in
        then-Keeps _ (r s) (tested-Keeps codes k (λ s'. unexpected-Keeps s'.answer.body s'))
    apply-Keeps (azure_unless codes) r s =
        let k : Responder T = λ s'. azure_error d s'.answer.body s' in
        then-Keeps _ (r s) (tested-Keeps codes k (λ s'. azure_error-Keeps d s'.answer.body s'))

    apply-done :
        (x : Decorator) (r : Responder T) (s : Held T)
        → (apply codec d x r s).0 ≡ done
        → (r s).0 ≡ done
    unfolding apply by_ignoring by_copying by_discarding_body by_closing by_closing_if_error
        by_unmarshalling_bytes by_unmarshalling_json by_unmarshalling_xml
        with_error_unless_status_code azure_error_unless_status_code
    apply-done ignoring r s e = e
    apply-done copying_of r s e = then-done (λ s'. copying s'.answer.body s') (r s) e
    apply-done discarding_of r s e = then-done (λ s'. discarding s'.answer.body s') (r s) e
    apply-done closing r s e = closing_of-done (r s) e
    apply-done closing_if_error r s e = closing_if_error_of-done (r s) e
    apply-done bytes r s e = then-done _ (r s) e
    apply-done json r s e = then-done _ (r s) e
    apply-done xml r s e = then-done _ (r s) e
    apply-done (unless_status codes) r s e = then-done _ (r s) e
    apply-done (azure_unless codes) r s e = then-done _ (r s) e

    decorate-done :
        (xs : List Decorator) (r : Responder T) (s : Held T)
        → (decorate_responder codec d xs r s).0 ≡ done
        → (r s).0 ≡ done
    unfolding decorate_responder
    decorate-done [] r s e = e
    decorate-done (x ∷ xs) r s e = apply-done x r s (decorate-done xs (apply codec d x r) s e)

    abbrev pub Limits : List ℕ → Decorator → Type 0
    Limits codes x = (x ≡ unless_status codes) ⊎ (x ≡ azure_unless codes)

    limit_tested :
        (codes : List ℕ) (x : Decorator) (r : Responder T) (s : Held T)
        → Limits codes x
        → (apply codec d x r s).0 ≡ done
        → contains_int codes (r s).1.answer.status_code ≡ true
    unfolding apply with_error_unless_status_code azure_error_unless_status_code
    limit_tested codes x r s (inl e) f =
        tested-done codes (λ s'. unexpected s'.answer.body s') (r s)
          (λ s'. unexpected-done s'.answer.body s')
          (subst (λ y. (apply codec d y r s).0 ≡ done) e f)
    limit_tested codes x r s (inr e) f =
        tested-done codes (λ s'. azure_error d s'.answer.body s') (r s)
          (λ s'. azure_error-done d s'.answer.body s')
          (subst (λ y. (apply codec d y r s).0 ≡ done) e f)

    decorate-limited :
        (codes : List ℕ) (xs ys : List Decorator) (x : Decorator) (r : Responder T) (s : Held T)
        → Limits codes x
        → (decorate_responder codec d (xs ++ x ∷ ys) r s).0 ≡ done
        → contains_int codes (r s).1.answer.status_code ≡ true
    unfolding decorate_responder
    decorate-limited codes [] ys x r s l e =
        limit_tested codes x r s l (decorate-done ys (apply codec d x r) s e)
    decorate-limited codes (z ∷ xs) ys x r s l e =
        subst (λ n. contains_int codes n ≡ true) (apply-Keeps z r s)
          (decorate-limited codes xs ys x (apply codec d z r) s l e)

    -- If a responder returns no error, and `WithErrorUnlessStatusCode` of autorest or of azure is
    -- somewhere among its decorators, the status of the response is one of the codes.
    pub respond-has_status :
        (codes : List ℕ) (xs ys : List Decorator) (x : Decorator) (s : Held T)
        → Limits codes x
        → (create_responder codec d (xs ++ x ∷ ys) s).0 ≡ done
        → contains_int codes s.answer.status_code ≡ true
    unfolding create_responder
    respond-has_status codes xs ys x s l e = decorate-limited codes xs ys x (λ s'. (done, s')) s l e
