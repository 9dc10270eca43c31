-- ===== src/Retriable.antt =====
-- autorest/retriablerequest.go, retriablerequest_1.8.go: a request whose body can be sent again.
pub mod Resend
use go_autorest.Prelude.{
  ℕ, zero, suc, String, Bool, true, false, Option, none, some, List, [], ◌∷◌, ◌++◌, ℤ, pos, negsuc,
  ltb, length, take, if◌then◌else◌,
}

abbrev pub Bytes : Type 0
Bytes = List ℕ

-- A request body: nil, `http.NoBody`, a stream with the bytes that are left in it, or the reader
-- over the copy `br`. A stream fails at its end where its flag says so.
pub data ReqBody : Type 0 where
  nil_body : ReqBody
  no_body : ReqBody
  stream : (left : Bytes) (fails : Option String) → ReqBody
  over_copy : ReqBody

-- What `GetBody` returns: the bytes of a new reader, or an error.
pub data Fresh : Type 0 where
  fresh : Bytes → Fresh
  no_fresh : String → Fresh

-- The wrapped request's body, `GetBody` and `ContentLength`, and the fields `rc` and `br`; `br` is
-- the copy with the bytes of it that are not read yet.
pub record RetriableRequest : Type 0 where
  pub body : ReqBody
  pub get_body : Option Fresh
  pub content_length : ℤ
  pub rc : Option Bytes
  pub br : Option (Bytes × Bytes)

-- `NewRetriableRequest`
abbrev pub new_retriable_request : ReqBody → Option Fresh → ℤ → RetriableRequest
new_retriable_request body get_body content_length = record {
  body = body;
  get_body = get_body;
  content_length = content_length;
  rc = none;
  br = none;
}

-- what reading the request's body to its end gives
unfoldable pub readable_body : RetriableRequest → Bytes
readable_body rr = elim rr.body [
  | nil_body ↦ []
  | no_body ↦ []
  | stream left fails ↦ left
  | over_copy ↦ elim rr.br [ none ↦ [] | some (whole, left) ↦ left ]
]

-- An error's message, or none, and the request after it.
abbrev pub Prepared : Type 0
Prepared = Option String × RetriableRequest

-- `rr.br = bytes.NewReader(b); rr.req.Body = io.NopCloser(rr.br)`
abbrev copied : Bytes → RetriableRequest → Prepared
copied b rr = (none, record rr { body = over_copy; br = some (b, b) })

-- `io.ReadAll`
abbrev read_whole : Bytes → Option String → RetriableRequest → Prepared
read_whole left none rr = copied left rr
read_whole left (some e) rr = (some e, rr)

-- `io.ReadFull` of n bytes, an error if there are fewer
abbrev read_exactly : ℕ → Bytes → RetriableRequest → Prepared
read_exactly n left rr =
    if ltb (length left) n then (some "unexpected EOF", rr) else copied (take n left) rr

abbrev read_stream : ℤ → Bytes → Option String → RetriableRequest → Prepared
read_stream (pos (suc n)) left fails rr = read_exactly (suc n) left rr
read_stream (pos zero) left fails rr = read_whole left fails rr
read_stream (negsuc n) left fails rr = read_whole left fails rr

unfoldable pub prepare_from_byte_reader : RetriableRequest → Prepared
prepare_from_byte_reader rr = elim rr.body [
  | nil_body ↦ (none, rr)
  | no_body ↦ (none, rr)
  | stream left fails ↦ read_stream rr.content_length left fails rr
  | over_copy ↦ (none, rr)
]

-- the body is set to what was kept for this attempt
unfoldable pub restore : RetriableRequest → RetriableRequest
restore rr = elim rr.rc [
  | some b ↦ record rr { body = stream b none }
  | none ↦ elim rr.br [
    | some (whole, left) ↦ record rr { body = over_copy; br = some (whole, whole) }
    | none ↦ rr
  ]
]

-- something is kept for the next attempt
unfoldable pub keep : RetriableRequest → Prepared
keep rr = elim rr.get_body [
  | some (fresh b) ↦ (none, record rr { rc = some b })
  | some (no_fresh e) ↦ (some e, record rr { rc = none })
  | none ↦ elim rr.br [ some copy ↦ (none, rr) | none ↦ prepare_from_byte_reader rr ]
]

abbrev pub has_body : ReqBody → Bool
has_body nil_body = false
has_body no_body = false
has_body _ = true

unfoldable pub prepare : RetriableRequest → Prepared
prepare rr = if has_body rr.body then keep (restore rr) else (none, rr)

-- `removeRequestBody`
unfoldable pub remove_request_body : RetriableRequest → RetriableRequest
remove_request_body rr = record rr { body = nil_body; get_body = none; content_length = pos zero }

-- The transport reads the body it is given, and leaves of it what it likes.
unfoldable pub consume : Bytes → RetriableRequest → RetriableRequest
consume left rr = elim rr.body [
  | nil_body ↦ rr
  | no_body ↦ rr
  | stream old fails ↦ record rr { body = stream left fails }
  | over_copy ↦ elim rr.br [ none ↦ rr | some (whole, old) ↦ record rr { br = some (whole, left) } ]
]
