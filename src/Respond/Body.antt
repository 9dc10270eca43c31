-- ===== src/Respond/Body.antt =====
-- The response that autorest/responder.go reacts to: its body, which is read, closed and replaced.
use Prim.Native.Char.{code}
use Prim.Native.String.{◌++◌}
use go_autorest.Prelude.{ℕ, String, Bool, true, false, Option, none, some, if◌then◌else◌, ◌==◌, ◌⊎◌}
use go_autorest.Json.{Json}
use go_autorest.Errors.{ServiceError}

-- The body that the server sends: what is left to read, the error at its end, whether it was
-- closed, and the error of its close.
pub record Server : Type 0 where
  pub left : String
  pub fails : Option String
  pub closed : Bool
  pub close_error : Option String

-- `resp.Body`: nil, the server's, or a reader over a text, which needs no closing
pub data Body : Type 0 where
  nil_body server_body : Body
  memory : (left : String) → Body

-- The response, with the method and the URL of `resp.Request`. `header` is `Header.Get`, and
-- `tees` says whether the body copies what is read into the buffer of `ByCopying`.
pub record Answer : Type 0 where
  pub status_code : ℕ
  pub status : String
  pub header : String → String
  pub request_method : String
  pub request_url : String
  pub body : Body
  pub tees : Bool
  pub server : Server

-- `RequestError`, whose status code is what was decoded, or that of the response
pub record RequestError : Type 0 where
  pub service_error : Option ServiceError
  pub request_id : String
  pub status_code : Json ⊎ ℕ

-- An error by its text; the detailed error of an unexpected status, with the body as its service
-- error; a `RequestError`.
pub data Failure : Type 0 where
  plain : String → Failure
  unexpected_status :
      (method url status : String) (code : ℕ) (service_error : Option String) → Failure
  request_error : RequestError → Failure

-- The response, the value that a decorator decodes into, and the buffer of the one `ByCopying`.
pub record Held (T : Type 0) : Type 0 where
  pub answer : Answer
  pub value : T
  pub copied : String

-- how a responder ends
pub data Ended : Type 0 where
  done : Ended
  fails : Failure → Ended
  panics : Ended

abbrev pub Responder : Type 0 → Type 0
Responder T = Held T → Ended × Held T

abbrev pub RespondDecorator : Type 0 → Type 0
RespondDecorator T = Responder T → Responder T

-- What a decorator does after the responder that it decorates: where there is no error, and in
-- any case but a panic.
abbrev pub then_if_done : {T : Type 0} → Ended × Held T → Responder T → Ended × Held T
then_if_done (done, s) k = k s
then_if_done (fails e, s) k = (fails e, s)
then_if_done (panics, s) k = (panics, s)

abbrev pub with_server : {T : Type 0} → Server → Held T → Held T
with_server v s = record s { answer = record s.answer { server = v } }

abbrev pub with_body : {T : Type 0} → Body → Held T → Held T
with_body b s = record s { answer = record s.answer { body = b; tees = false } }

-- what was read, to the buffer of a body that copies
abbrev pub copy_read : {T : Type 0} → String → Held T → Held T
copy_read text s = if s.answer.tees then record s { copied = s.copied ++ text } else s

-- A body that is read to its end: the text and the error. That of a closed body is the error of
-- net/http. A nil body panics.
unfoldable pub read_server : {T : Type 0} → Server → Held T → (String × Option String) × Held T
read_server v s =
    if v.closed
    then (("", some "http: read on closed response body"), s)
    else ((v.left, v.fails), copy_read v.left (with_server (record v { left = "" }) s))

unfoldable pub read_then :
    {T : Type 0} → Body → Held T → (String × Option String → Responder T) → Ended × Held T
read_then nil_body s k = (panics, s)
read_then server_body s k = let (x, s') = read_server s.answer.server s in k x s'
read_then (memory text) s k =
    k (text, none) (copy_read text (record s { answer = record s.answer { body = memory "" } }))

-- `resp.Body.Close()`, of a body that is not nil: its error, and the response after it
unfoldable pub close_body : {T : Type 0} → Body → Held T → Option String × Held T
close_body server_body s =
    (s.answer.server.close_error, with_server (record s.answer.server { closed = true }) s)
close_body b s = (none, s)

-- U+FEFF at the start
unfoldable pub trim_bom : String → String
trim_bom String.[] = ""
trim_bom (String.◌∷◌ c s) = if code c == 65279 then s else String.◌∷◌ c s
