-- ===== src/Beacon/Net.antt =====
-- Calls and their answers, and the flows that make them.
use mock_lab.Common.{
  ◌≡◌, refl, ◌⊎◌, inl, inr, ℕ, List, [], ◌∷◌, ◌++◌, Option, none, some, if◌then◌else◌,
}
use mock_lab.Common.Text.{Bytes, codes, text_eq, is_empty}
use mock_lab.Common.Json.{Json, lenient_string}

-- A GET, a POST with its document, and a GET with an Authorization header and a Cookie header ("" is
-- no header).
pub data Call : Type 0 where
  get : Bytes → Call
  post : Bytes → Json → Call
  get_with : Bytes → Bytes → Bytes → Call

pub record Reply : Type 0 where
  pub status : ℕ
  pub size : ℕ
  pub document : Option Json
  pub chaos : Bytes
  pub cookies : List (Bytes × Bytes)

pub data Answer : Type 0 where
  lost : Bytes → Answer
  reply : Reply → Answer

abbrev pub Flow : Type 0 → Type 0
Flow A = List Call → A × List Call

abbrev pub pure : {A : Type 0} → A → Flow A
pure a log = (a, log)

infixl 5 ◌>>=◌ ◌>>◌
abbrev pub ◌>>=◌ : {A B : Type 0} → Flow A → (A → Flow B) → Flow B
◌>>=◌ m f log = let (a, log') = m log in f a log'

abbrev pub ◌>>◌ : {B : Type 0} → Flow (Unit {0}) → Flow B → Flow B
m >> k = m >>= λ _. k

abbrev pub call : (List Call → Call → Answer) → Call → Flow Answer
call net c log = (net log c, log ++ c ∷ [])

-- The string field of an answer's document, named in lower case, decoding errors ignored; `none`
-- where the call failed or the field is empty.
unfoldable pub field : Bytes → Answer → Option Bytes
field name (lost err) = none
field name (reply r) = let s = lenient_string name r.document in if is_empty s then none else some s

unfoldable pub cookies_of : Answer → List (Bytes × Bytes)
cookies_of (lost err) = []
cookies_of (reply r) = r.cookies

-- The loop over the cookies: the last one named SESSIONID counts.
session_from : Bytes → List (Bytes × Bytes) → Bytes
session_from cookie [] = cookie
session_from cookie ((name, value) ∷ cs) =
    session_from (if text_eq name (codes "SESSIONID") then name ++ codes "=" ++ value else cookie)
      cs

unfoldable pub session_cookie : List (Bytes × Bytes) → Bytes
unfolding session_from
session_cookie cs = session_from [] cs

pub Answer-cases : (a : Answer) → ((err : Bytes) × (a ≡ lost err)) ⊎ ((r : Reply) × (a ≡ reply r))
Answer-cases (lost err) = inl (err, refl)
Answer-cases (reply r) = inr (r, refl)
