-- ===== src/Common/Http.antt =====
-- Requests to other services and responses of a handler.
use Prim.Native.Nat.{ℕ}
use mathlib.Core.Path.{◌≡◌, refl}
use mathlib.Core.Logic.{◌⊎◌, inl, inr}
use mathlib.Core.List.{[], ◌∷◌, ◌++◌}
use mathlib.Core.Option.{Option}
use mock_lab.Common.Text.{Bytes, codes}
use mock_lab.Common.Json.{Json}

-- What a call of another service brings back: an error of the client, with its text, or a
-- response, with its body and the document that the body decodes to.
pub data Fetched : Type 0 where
  failed : Bytes → Fetched
  answered : ℕ → Bytes → Option Json → Fetched

-- A body is a document that is encoded, or text as it stands.
pub data Payload : Type 0 where
  json : Json → Payload
  text : Bytes → Payload

pub record Response : Type 0 where
  pub status : ℕ
  pub content_type : Bytes
  pub body : Payload

abbrev pub application_json : Bytes
application_json = codes "application/json"

-- `http.Error`
abbrev pub http_error : Bytes → ℕ → Response
http_error msg status = record {
  status = status;
  content_type = codes "text/plain; charset=utf-8";
  body = text (msg ++ 10 ∷ []);
}

pub Fetched-cases :
    (f : Fetched)
    → ((err : Bytes) × (f ≡ failed err))
      ⊎ ((status : ℕ) × (page : Bytes) × (document : Option Json) × (f
            ≡ answered status page document))
Fetched-cases (failed err) = inl (err, refl)
Fetched-cases (answered status page document) = inr (status, page, document, refl)
