-- ===== src/Runtime.antt =====
-- crates/madrpc-server/src/runtime: the values that a call carries into the JavaScript engine and out of
-- it. An object of JSON is the list of its entries in the order of the keys; an object of the engine is
-- the list of its own properties in the order of its own property keys. A value of the engine is a tree:
-- an object that contains itself is not modelled. The numbers of serde_json (`N`), the numbers (`F`) and
-- the texts (`S`) of the engine are parameters.
pub mod Conversions
pub mod Maps
pub mod Laws
pub mod Entries
pub mod Roundtrip
pub mod Readable
pub mod Jobs
pub mod Context
pub mod Bindings
use madrpc.Prelude.{ℕ, String, Bool, Option, ◌⊎◌}
use madrpc.Float.{ℤ}

mutual
  pub data JsonValue (N : Type 0) : Type 0 where
    null : JsonValue N
    bool : Bool → JsonValue N
    number : N → JsonValue N
    string : String → JsonValue N
    array : JsonItems N → JsonValue N
    object : JsonFields N → JsonValue N

  pub data JsonItems (N : Type 0) : Type 0 where
    nil : JsonItems N
    cons : JsonValue N → JsonItems N → JsonItems N

  pub data JsonFields (N : Type 0) : Type 0 where
    end : JsonFields N
    field : String → JsonValue N → JsonFields N → JsonFields N

-- boa_engine::property::PropertyKey.
pub data PropertyKey (S : Type 0) : Type 0 where
  name : S → PropertyKey S
  index : ℕ → PropertyKey S
  symbol_key : ℕ → PropertyKey S

-- What an object is besides its properties: a function or a promise is known by a number.
pub data ObjectKind : Type 0 where
  plain : ObjectKind
  function promise : ℕ → ObjectKind

-- Why an array cannot be read: it is no array of the engine, its length throws, each with the text of the
-- error, or the length does not fit.
pub data ArrayFault : Type 0 where
  invalid : String → ArrayFault
  unmeasured : String → ArrayFault
  overlong : ArrayFault

-- `other` stands for the values of a kind that the conversion does not name. A property or an element
-- that is read through a getter can throw, with the text of its error. `broken_array` is an array that
-- cannot be read, `unlisted_object` an object that throws when it is asked for its keys.
mutual
  pub data JsValue (F : Type 0) (S : Type 0) : Type 0 where
    undefined : JsValue F S
    null_value : JsValue F S
    boolean : Bool → JsValue F S
    numeric : F → JsValue F S
    text_value : S → JsValue F S
    array_object : JsItems F S → JsValue F S
    object_value : ObjectKind → JsProps F S → JsValue F S
    broken_array : ArrayFault → JsValue F S
    unlisted_object : String → JsValue F S
    symbol : JsValue F S
    other : JsValue F S

  pub data JsItems (F : Type 0) (S : Type 0) : Type 0 where
    empty : JsItems F S
    item : JsValue F S → JsItems F S → JsItems F S
    throwing_item : String → JsItems F S → JsItems F S

  pub data JsProps (F : Type 0) (S : Type 0) : Type 0 where
    done : JsProps F S
    prop : PropertyKey S → JsValue F S → JsProps F S → JsProps F S
    throwing_prop : PropertyKey S → String → JsProps F S → JsProps F S

-- What the conversions use of serde_json and of the engine. A text on the left is an error's;
-- `push_error` is what appending a value to an array of that length throws, if anything.
pub record Engine (N : Type 0) (F : Type 0) (S : Type 0) : Type 0 where
  pub as_f64 : N → Option F
  pub as_i64 : N → Option ℤ
  pub of_i64 : ℤ → F
  pub as_i32 : F → Option ℤ
  pub of_i32 : ℤ → N
  pub from_f64 : F → Option N
  pub js_string : String → S
  pub to_std_string : S → String ⊎ String
  pub property_key : S → PropertyKey S
  pub show : ℕ → String
  pub push_error : ℕ → JsValue F S → Option String
  pub create : JsProps F S → PropertyKey S → JsValue F S → String ⊎ JsProps F S
