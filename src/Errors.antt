-- ===== src/Errors.antt =====
-- The errors of the JetStream API and their translation (walnats/_errors.py).
use walnats.Prelude.{ℕ, String, Bool, Option, none, some, nat_beq, if◌then◌else◌}
use walnats.Exceptions.{Exc}

-- The fields of `nats.js.errors.APIError`.
pub record ApiError : Type 0 where
  pub code : Option ℕ
  pub err_code : Option ℕ
  pub description : Option String
  pub stream : Option String
  pub seq : Option ℕ

-- `stream_exists` and `stream_config` are the two classes of _errors.py; `bad_request` and
-- `server_error` are the library's, and `other` is any other exception.
pub data JsExc : Type 0 where
  bad_request : ApiError → JsExc
  server_error : ApiError → JsExc
  stream_exists : ApiError → JsExc
  stream_config : ApiError → JsExc
  other : Exc → JsExc

abbrev pub js_stream_exists : ℕ
js_stream_exists = 10058

abbrev pub js_stream_config : ℕ
js_stream_config = 10052

-- How a `with` block ends: by its own `return`, by falling through, or by an exception.
pub data Flow : Type 0 where
  returned : Flow
  passed : Flow
  raised : JsExc → Flow

abbrev pub has_code : ℕ → ApiError → Bool
has_code n e = elim e.err_code [ none ↦ Bool.false | some c ↦ nat_beq c n ]

-- `with convert_stream_errors(exists_ok): ...`, from the way the block inside ends.
unfoldable pub convert_stream_errors : Bool → Flow → Flow
convert_stream_errors exists_ok (raised (bad_request e)) =
    if has_code js_stream_exists e
    then if exists_ok then passed else raised (stream_exists (record e { code = some 400 }))
    else raised (bad_request e)
convert_stream_errors exists_ok (raised (stream_exists e)) =
    if has_code js_stream_exists e
    then if exists_ok then passed else raised (stream_exists (record e { code = some 400 }))
    else raised (stream_exists e)
convert_stream_errors exists_ok (raised (server_error e)) =
    if has_code js_stream_config e
    then raised (stream_config (record e { code = some 500 }))
    else raised (server_error e)
convert_stream_errors exists_ok (raised (stream_config e)) =
    if has_code js_stream_config e
    then raised (stream_config (record e { code = some 500 }))
    else raised (stream_config e)
convert_stream_errors exists_ok flow = flow
