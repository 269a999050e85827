-- ===== src/Web/Json.antt =====
-- `DecodeJSON` of web/json.go. The decoder of encoding/json is an interface.
use gouterstellar_platform.Base.{Result, ok, err, zero, suc, Bool, true, false, Option, none, some}
use gouterstellar_platform.Base.Int.{ℤ, pos, negsuc}
use gouterstellar_platform.Web.Requests.{Body, limited}

-- The error of a decoder at the end of its input, or any other.
pub data DecodeFailure (E : Type 0) : Type 0 where
  eof : DecodeFailure E
  failed : E → DecodeFailure E

-- A decoder: its state over a body, the setting under which it refuses unknown fields, and the decoding
-- of the next value into the destination's type `V` or into a `json.RawMessage`.
pub record Decoder (S V E : Type 0) : Type 0 where
  pub start : Body → S
  pub disallow_unknown_fields : S → S
  pub decode : S → Result (DecodeFailure E) V × S
  pub decode_raw : S → Result (DecodeFailure E) (Unit {0}) × S

pub data JsonError (E : Type 0) : Type 0 where
  writer_required body_required max_not_positive multiple_json_values : JsonError E
  decode_failed : DecodeFailure E → JsonError E
  trailing_failed : E → JsonError E

module _ {S V E : Type 0} (decoder : Decoder S V E) where
  -- The second decoding, whose end of input is the success.
  unfoldable pub trailing : V → Result (DecodeFailure E) (Unit {0}) → Result (JsonError E) V
  trailing v (err eof) = ok v
  trailing v (err (failed e)) = err (trailing_failed e)
  trailing v (ok _) = err multiple_json_values

  -- What follows the first decoding.
  unfoldable pub finish : Result (DecodeFailure E) V × S → Result (JsonError E) V
  finish (err e, s) = err (decode_failed e)
  finish (ok v, s) = trailing v (decoder.decode_raw s).0

  -- The result, which has the decoded destination if there is no error, and the body that the request
  -- has afterwards. The flag says that there is a writer; `none` is a nil request or a nil body.
  unfoldable pub decode_json : Bool → Option Body → ℤ → Result (JsonError E) V × Option Body
  decode_json false body max_bytes = (err writer_required, body)
  decode_json true none max_bytes = (err body_required, none)
  decode_json true (some b) (pos zero) = (err max_not_positive, some b)
  decode_json true (some b) (negsuc n) = (err max_not_positive, some b)
  decode_json true (some b) (pos (suc n)) = (
    finish (decoder.decode (decoder.disallow_unknown_fields (decoder.start (limited (suc n) b)))),
    some (limited (suc n) b),
  )
