-- ===== src/Retriable/Resend.antt =====
-- Every attempt sends the same body.
use go_autorest.Prelude.{
  ℕ, zero, suc, String, subst, ◌≡◌, refl, Option, none, some, [], ◌∷◌, arith, ap, ℤ, pos, negsuc,
  length, take,
}
use go_autorest.Retriable.{
  Bytes, stream, over_copy, fresh, RetriableRequest, readable_body, prepare, restore, keep,
  prepare_from_byte_reader, consume, read_stream,
}

-- `ContentLength` is unknown, or is the length of the body.
abbrev pub Fits : Bytes → ℤ → Type 0
Fits b (pos zero) = Unit
Fits b (pos (suc n)) = length b ≡ suc n
Fits b (negsuc n) = Unit

-- The request before an attempt: not sent yet, sent with what GetBody returned, or sent from a copy.
pub data Resends (b : Bytes) : RetriableRequest → Type 0 where
  fetching :
      {rr : RetriableRequest} (fails : Option String)
      → rr.body ≡ stream b fails
      → rr.rc ≡ none
      → rr.br ≡ none
      → rr.get_body ≡ some (fresh b)
      → Resends b rr
  copying :
      {rr : RetriableRequest}
      → rr.body ≡ stream b none
      → rr.rc ≡ none
      → rr.br ≡ none
      → rr.get_body ≡ none
      → Fits b rr.content_length
      → Resends b rr
  fetched :
      {rr : RetriableRequest} (left : Bytes) (fails : Option String)
      → rr.body ≡ stream left fails
      → rr.rc ≡ some b
      → rr.br ≡ none
      → rr.get_body ≡ some (fresh b)
      → Resends b rr
  has_copy :
      {rr : RetriableRequest} (left : Bytes)
      → rr.body ≡ over_copy
      → rr.rc ≡ none
      → rr.br ≡ some (b, left)
      → rr.get_body ≡ none
      → Resends b rr

-- Prepared without an error, with body `b` to read and to send again whatever is left of it.
pub record Ready (b : Bytes) (r : Option String × RetriableRequest) : Type 0 where
  pub no_failure : r.0 ≡ none
  pub reads : readable_body r.1 ≡ b
  pub again : (left : Bytes) → Resends b (consume left r.1)

take-length : (b : Bytes) (n : ℕ) → length b ≡ n → take n b ≡ b
take-length [] zero h = refl
take-length [] (suc n) h = refl
take-length (x ∷ b) zero h = absurd (omega arith)
take-length (x ∷ b) (suc n) h = ap (λ t. x ∷ t) (take-length b n (omega arith))

read_stream-Fits :
    (b : Bytes) (n : ℤ) (rr : RetriableRequest)
    → Fits b n
    → read_stream n b none rr ≡ (none, record rr { body = over_copy; br = some (b, b) })
read_stream-Fits b (pos zero) rr h = refl
read_stream-Fits b (negsuc n) rr h = refl
read_stream-Fits b (pos (suc n)) rr h = ground (arith, take-length b (suc n))

module _ (b : Bytes) (rr : RetriableRequest) where
  abbrev after_fetch : Option String → RetriableRequest
  after_fetch fails = record rr {
    body = stream b fails;
    rc = some b;
    br = none;
    get_body = some (fresh b);
  }

  Ready-after_fetch : (fails : Option String) → Ready b (none, after_fetch fails)
  unfolding readable_body consume
  Ready-after_fetch fails = record {
    no_failure = refl;
    reads = refl;
    again = λ left. fetched left fails refl refl refl refl;
  }

  abbrev after_copy : RetriableRequest
  after_copy = record rr { body = over_copy; rc = none; br = some (b, b); get_body = none }

  Ready-after_copy : Ready b (none, after_copy)
  unfolding readable_body consume
  Ready-after_copy = record {
    no_failure = refl;
    reads = refl;
    again = λ left. has_copy left refl refl refl refl;
  }

-- Let the request before an attempt hold the body `b`, or a GetBody or a copy that gives it again,
-- and let a positive ContentLength be the length of the body where there is no GetBody. Then
-- `Prepare` returns no error, the body that it leaves reads as `b`, and however much of it the
-- transport then reads, the request is again as it has to be before an attempt.
pub prepare-Ready : (b : Bytes) (rr : RetriableRequest) → Resends b rr → Ready b (prepare rr)
unfolding prepare restore keep prepare_from_byte_reader
prepare-Ready b rr (fetching fails body rc br gb) =
    subst (Ready b) (ground arith) (Ready-after_fetch b rr fails)
prepare-Ready b rr (copying body rc br gb fits) =
    subst (Ready b) (ground (arith, read_stream-Fits b rr.content_length rr fits))
      (Ready-after_copy b rr)
prepare-Ready b rr (fetched left fails body rc br gb) =
    subst (Ready b) (ground arith) (Ready-after_fetch b rr none)
prepare-Ready b rr (has_copy left body rc br gb) =
    subst (Ready b) (ground arith) (Ready-after_copy b rr)
