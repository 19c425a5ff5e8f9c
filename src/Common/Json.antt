-- ===== src/Common/Json.antt =====
-- JSON documents as package encoding/json decodes and encodes them.
use mathlib.Core.Bool.{Bool}
use mathlib.Core.List.{List, [], ◌∷◌}
use mathlib.Core.Option.{Option, none, some}
use Prim.Native.Nat.{ℕ}
use mock_lab.Common.Tests.{if◌then◌else◌}
use mock_lab.Common.Text.{Bytes, text_eq, to_lower}

-- `number` is the literal of a number that was read, `int` a Go integer that is written.
mutual
  pub data Json : Type 0 where
    null : Json
    bool : Bool → Json
    number : Bytes → Json
    int : ℕ → Json
    str : Bytes → Json
    arr : Elems → Json
    obj : Members → Json

  pub data Elems : Type 0 where
    nil : Elems
    cons : Json → Elems → Elems

  pub data Members : Type 0 where
    end : Members
    member : Bytes → Json → Members → Members

abbrev pub elems : Elems → List Json
elems nil = []
elems (cons v vs) = v ∷ elems vs

abbrev pub elems_of : List Json → Elems
elems_of [] = nil
elems_of (v ∷ vs) = cons v (elems_of vs)

-- `m[k]` of the map that an object decodes to: the last member of a name wins.
unfoldable pub get : Bytes → Members → Option Json
get k end = none
get k (member j v ms) = elim (get k ms) [
  | some w ↦ some w
  | none ↦ if text_eq j k then some v else none
]

-- `v.(string)` of a value in a map, which may be missing.
abbrev pub as_string : Option Json → Option Bytes
as_string (some (str s)) = some s
as_string _ = none

-- `v.(map[string]any)`, `none` where the value is no object.
abbrev pub as_object : Json → Option Members
as_object (obj ms) = some ms
as_object _ = none

-- One member set in a struct with a single string field of the name `k`, which is matched without
-- regard to case: null leaves the field alone, and any other type is an error.
abbrev pub set_string : Json → Bytes → Option Bytes
set_string (str s) old = some s
set_string null old = some old
set_string _ old = none

unfoldable pub decode_members : Bytes → Bytes → Members → Option Bytes
decode_members k old end = some old
decode_members k old (member j v ms) =
    let skipped = decode_members k old ms in
    let taken : Option Bytes = elim (set_string v old) [
      | none ↦ none
      | some new ↦ decode_members k new ms
    ] in
    if text_eq (to_lower j) k then taken else skipped

-- A document decoded into `struct { F string }`, `F` named `k` in lower case; `none` is an error.
unfoldable pub decode_string : Bytes → Option Json → Option Bytes
unfolding decode_members
decode_string k (some (obj ms)) = decode_members k [] ms
decode_string k (some null) = some []
decode_string k _ = none

-- The same where the error is ignored: a member of another type leaves the field alone.
unfoldable pub lenient_members : Bytes → Bytes → Members → Bytes
lenient_members k old end = old
lenient_members k old (member j v ms) =
    lenient_members k
      (if text_eq (to_lower j) k
        then elim (set_string v old) [ none ↦ old | some new ↦ new ]
        else old)
      ms

unfoldable pub lenient_string : Bytes → Option Json → Bytes
unfolding lenient_members
lenient_string k (some (obj ms)) = lenient_members k [] ms
lenient_string k _ = []
