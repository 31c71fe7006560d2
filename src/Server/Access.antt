-- ===== src/Server/Access.antt =====
-- auth.rs and json_extractor.rs: what stands before a handler.
use mathlib.Core.Option
use scrigno.Prelude.{
  ℕ, ◌*◌, ◌≡◌, ◌-◌, ◌^◌, ◌≢◌, refl, ap, ◌∙◌, arith, Bool, true, false, Option, none, some, ◌++◌,
  ltb, if◌then◌else◌, Result, ok, err, length, Option-cases, inl, inr, ◌⊎◌, Bool-cases,
}
use scrigno.Prelude.Options.{◌>>=◌}
use scrigno.Prelude.Bytes.{Bytes, codes, same_bytes, same_bytes-eq, same_bytes_refl}
use scrigno.Server.{Db, ApiError, unauthorized, payload_too_large, bad_request, Handler}
use scrigno.Server.Headers.{
  is_text, strip_prefix, strip_prefix-eq, strip_prefix-append, parse_unsigned,
}

abbrev pub bearer_prefix : Bytes
bearer_prefix = codes "Bearer "

abbrev pub max_json_bytes : ℕ
max_json_bytes = 1024 * 1024

-- The token that a header carries is the configured one; the comparison is in constant time.
authorized : Bytes → Option Bytes → Bool
authorized token none = false
authorized token (some header) = elim (strip_prefix bearer_prefix header) [
  | none ↦ false
  | some provided ↦ if is_text header then same_bytes provided token else false
]

unfoldable pub require_token : {A : Type 0} → Bytes → Option Bytes → Handler A → Handler A
unfolding authorized
require_token token header next db =
    if authorized token header then next db else (err unauthorized, db)

-- `Json::from_request`: the declared length, where there is one, and the actual one are bounded;
-- `parse` is serde_json's.
unfoldable pub from_request :
    {A : Type 0} → (Bytes → Option A) → Option Bytes → Bytes → Result ApiError A
from_request parse content_length body =
    if ltb max_json_bytes (Option.get_or (content_length >>= parse_unsigned (2 ^ 64 - 1)) 0)
    then err payload_too_large
    else (if ltb max_json_bytes (length body)
        then err payload_too_large
        else (elim (parse body) [ none ↦ err (bad_request "invalid JSON body") | some a ↦ ok a ]))

authorized-eq :
    (token header : Bytes) → authorized token (some header) ≡ true → header ≡ bearer_prefix ++ token
unfolding authorized
authorized-eq token header h = elim (Option-cases (strip_prefix bearer_prefix header)) [
  | inl e ↦ ground arith
  | inr (provided, e) ↦
      (let q : provided ≡ token = ground (arith, same_bytes-eq provided token) in
        strip_prefix-eq bearer_prefix header provided e ∙ ap (λ t. bearer_prefix ++ t) q)
]

authorized_bearer :
    (token : Bytes)
    → is_text (bearer_prefix ++ token) ≡ true
    → authorized token (some (bearer_prefix ++ token)) ≡ true
unfolding authorized
authorized_bearer token h =
    ground (arith, strip_prefix-append bearer_prefix token, same_bytes_refl token)

-- A handler behind the token runs where the header is `Bearer ` and the configured token; with any
-- other header, or none, the answer is 401 and the database is as it was. The token is of visible
-- characters.
pub require_token_guards :
    {A : Type 0} (token : Bytes) (header : Option Bytes) (next : Handler A) (db : Db)
    → is_text (bearer_prefix ++ token) ≡ true
    → ((header ≡ some (bearer_prefix ++ token)) × (require_token token header next db ≡ next db))
      ⊎ ((header ≢ some (bearer_prefix ++ token))
          × (require_token token header next db ≡ (err unauthorized, db)))
unfolding require_token
require_token_guards token none next db h = inr (λ e. cc, refl)
require_token_guards token (some header) next db h =
    elim (Bool-cases (authorized token (some header))) [
      | inl t ↦ inl (ground (arith, authorized-eq token header), ground arith)
      | inr t ↦ inr (λ e. ground (arith, authorized_bearer token h), ground arith)
    ]
