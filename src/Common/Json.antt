-- ===== src/Common/Json.antt =====
-- JSON values as `JSON.parse` returns them, and how the code looks into them; `undefined` is `none`.
use Prim.Native.String.{String}
use mathlib.Core.Bool.{Bool, true, false, not}
use mathlib.Core.Option.{Option, none, some}
use text.Mathlib.Text.{◌==◌}
use concordium_web3id.Common.Text.{is_blank}
use concordium_web3id.Common.Tests.{if◌then◌else◌}

-- A number is kept by whether it is zero and by its text.
mutual
  pub data Json : Type 0 where
    null : Json
    bool : Bool → Json
    number : (zero : Bool) (text : String) → Json
    string : String → Json
    array : Items → Json
    object : Fields → Json

  pub data Items : Type 0 where
    nil : Items
    cons : Json → Items → Items

  pub data Fields : Type 0 where
    end : Fields
    field : String → Json → Fields → Fields

abbrev pub lookup : String → Fields → Option Json
lookup k end = none
lookup k (field j v fs) = if j == k then some v else lookup k fs

-- `x?.k`, for a key that no other value than an object has
abbrev pub get : String → Option Json → Option Json
get k (some (object fs)) = lookup k fs
get k (some _) = none
get k none = none

-- `x ?? y`
abbrev pub or_else : Option Json → Option Json → Option Json
or_else none y = y
or_else (some null) y = y
or_else x y = x

-- `if (x)`
abbrev pub is_truthy : Option Json → Bool
is_truthy none = false
is_truthy (some null) = false
is_truthy (some (bool b)) = b
is_truthy (some (number zero text)) = not zero
is_truthy (some (string s)) = not (is_blank s)
is_truthy (some (array items)) = true
is_truthy (some (object fields)) = true
