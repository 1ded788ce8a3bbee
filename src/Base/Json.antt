-- ===== src/Base/Json.antt =====
-- A decoded JSON value: what `json.loads` returns. A number is a natural number.
use mathlib.Core.Path.{◌≡◌, refl}
use mathlib.Core.List.{List, [], ◌∷◌}
use mathlib.Core.Bool.{Bool}
use mathlib.Core.Option.{Option, none, some}
use Prim.Native.Nat.{ℕ}
use arguss.Base.Tests.{if◌then◌else◌}
use arguss.Base.Texts.{Text, text_eq, text_eq_iff}
use native.Mathlib.Omega.{arith}

mutual
  pub data Json : Type 0 where
    null : Json
    bool : Bool → Json
    number : ℕ → Json
    string : Text → Json
    array : Items → Json
    object : Members → Json

  pub data Items : Type 0 where
    no_items : Items
    item : Json → Items → Items

  pub data Members : Type 0 where
    no_members : Members
    member : Text → Json → Members → Members

-- members.get(key)
unfoldable pub get : Text → Members → Option Json
get key no_members = none
get key (member k j ms) = if text_eq k key then some j else get key ms

-- members[key] = j
unfoldable pub set : Text → Json → Members → Members
set key j no_members = member key j no_members
set key j (member k i ms) = if text_eq k key then member k j ms else member k i (set key j ms)

-- The value, if it is a string.
abbrev pub string_of : Option Json → Option Text
string_of (some (string s)) = some s
string_of _ = none

-- The members, if it is an object.
abbrev pub object_of : Option Json → Option Members
object_of (some (object ms)) = some ms
object_of _ = none

abbrev pub member_keys : Members → List Text
member_keys no_members = []
member_keys (member k j ms) = k ∷ member_keys ms

pub get-set :
    (k key : Text) (j : Json) (ms : Members)
    → get key (set k j ms) ≡ (if text_eq k key then some j else get key ms)
unfolding get set
get-set k key j no_members = refl
get-set k key j (member i v ms) =
    ground (arith, text_eq_iff k key, text_eq_iff i k, text_eq_iff i key, get-set k key j ms)
