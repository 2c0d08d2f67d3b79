-- ===== src/Prelude/Json.antt =====
-- A parsed JSON value. A number is its literal.
use mathlib.Core.Bool.{Bool}
use mathlib.Core.Option.{Option, none, some}
use mathlib.Core.List.{List, [], ◌∷◌}
use code_fleet.Prelude.Tests.{if◌then◌else◌}
use code_fleet.Prelude.Texts.{Text, ◌==◌}

mutual
  pub data Json : Type 0 where
    null : Json
    boolean : Bool → Json
    number : Text → Json
    string : Text → Json
    array : Items → Json
    object : Fields → Json

  pub data Items : Type 0 where
    no_items : Items
    item : Json → Items → Items

  pub data Fields : Type 0 where
    no_fields : Fields
    field : Text → Json → Fields → Fields

-- The elements of an array
unfoldable pub elements : Items → List Json
elements no_items = []
elements (item j js) = j ∷ elements js

-- `Object.keys`
unfoldable pub keys_of : Fields → List Text
keys_of no_fields = []
keys_of (field k j fs) = k ∷ keys_of fs

-- `object[key]`, where `undefined` is none
unfoldable pub get : Text → Fields → Option Json
get key no_fields = none
get key (field k j fs) = if k == key then some j else get key fs
