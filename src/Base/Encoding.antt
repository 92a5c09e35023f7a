-- ===== src/Base/Encoding.antt =====
-- JSON values, and what `encoding/json` does at the types that the program stores.
use Prim.Native.String.{◌++◌}
use rivo.Prelude.{String, List, [], ◌∷◌, Bool, Option, none, some}
use rivo.Prelude.Int.{ℤ}
use rivo.Base.Errors.{message, Result, ok, err}

mutual
  pub data Json : Type 0 where
    null : Json
    bool : Bool → Json
    number : ℤ → Json
    string : String → Json
    array : Items → Json
    object : Fields → Json

  pub data Items : Type 0 where
    nil : Items
    cons : Json → Items → Items

  pub data Fields : Type 0 where
    end : Fields
    field : String → Json → Fields → Fields

-- A `json.RawMessage`, which may be nil.
abbrev pub RawMessage : Type 0
RawMessage = Option Json

-- A Go value of type `any`: one that `encoding/json` encodes, or one that it refuses, such as a
-- channel, with the name of its type.
pub data Any : Type 0 where
  value : Json → Any
  unsupported : String → Any

-- `json.Marshal`
unfoldable pub marshal : Any → Result Json
marshal (value j) = ok j
marshal (unsupported t) = err (message ("json: unsupported type: " ++ t))

-- `json.Marshal` of a `[]any`: the first element that is refused decides.
marshal_items : List Any → Result Items
unfolding marshal
marshal_items [] = ok nil
marshal_items (a ∷ as') = elim (marshal a) [
  | err e ↦ err e
  | ok j ↦ elim (marshal_items as') [ err e ↦ err e | ok js ↦ ok (cons j js) ]
]

unfoldable pub marshal_list : List Any → Result Json
unfolding marshal_items
marshal_list as' = elim (marshal_items as') [ err e ↦ err e | ok js ↦ ok (array js) ]

-- A slice of values: nil is written as null.
unfoldable pub marshal_slice : Option (List Any) → Result Json
marshal_slice none = ok null
marshal_slice (some as') = marshal_list as'
