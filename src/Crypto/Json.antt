-- ===== src/Crypto/Json.antt =====
-- `JSON.parse` as the crypto modules and the data layer call it: it throws a SyntaxError.
use fincrypt.Prelude.{Str, codes, Option, none, some, ap, ◌≡◌}
use fincrypt.Prelude.Json.{Json}
use fincrypt.Prelude.Json.Text.{json_stringify, json_value}
use fincrypt.Prelude.Json.Text.RoundTrip.{IsKept, json_value-json_stringify}
use fincrypt.Crypto.Errors.{Fault, plain_error, Result, ok, err}

-- Its message differs between engines.
abbrev pub syntax_error : Fault
syntax_error = plain_error (codes "SyntaxError")

abbrev pub or_syntax_error : Option Json → Result Json
or_syntax_error none = err syntax_error
or_syntax_error (some v) = ok v

unfoldable pub json_parse : Str → Result Json
unfolding json_value
json_parse s = or_syntax_error (json_value s)

pub json_parse-json_stringify : (v : Json) → IsKept v → json_parse (json_stringify v) ≡ ok v
unfolding json_parse
json_parse-json_stringify v kept = ap or_syntax_error (json_value-json_stringify v kept)
