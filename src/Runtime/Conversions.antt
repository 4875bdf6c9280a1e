-- ===== src/Runtime/Conversions.antt =====
-- crates/madrpc-server/src/runtime/conversions.rs: from JSON to the engine's values and back.
use Prim.Native.Nat.{Ordering}
use Prim.Native.String.{◌++◌ as ◌<>◌, compare}
use madrpc.Prelude.{ℕ, suc, ◌⊎◌, inl, inr, String, Option, none, some}
use madrpc.Float.{ℤ}
use madrpc.Protocol.{MadrpcError, java_script_execution, invalid_request, Result, ok, err}
use madrpc.Runtime.{
  JsonValue, null, bool, number, string, array, object, JsonItems, nil, cons, JsonFields, end,
  field, PropertyKey, name, index, symbol_key, plain, JsValue, undefined, null_value, boolean,
  numeric, text_value, array_object, object_value, ArrayFault, invalid, unmeasured, overlong,
  broken_array, unlisted_object, symbol, other, JsItems, empty, item, throwing_item, JsProps, done,
  prop, throwing_prop, Engine,
}

infixl 5 ◌>>=◌
abbrev pub ◌>>=◌ {ℓ κ} : {A : Type ℓ} {B : Type κ} → Result A → (A → Result B) → Result B
ok a >>= f = f a
err e >>= f = err e

-- `serde_json::Map::insert`: the keys stay in order, and a key that is there gets the new value.
unfoldable pub insert : {N : Type 0} → String → JsonValue N → JsonFields N → JsonFields N
insert key value end = field key value end
insert key value (field k v rest) = elim (compare key k) [
  | Ordering.lt ↦ field key value (field k v rest)
  | Ordering.eq ↦ field key value rest
  | Ordering.gt ↦ field k v (insert key value rest)
]

module _ {N F S : Type 0} (E : Engine N F S) where
  abbrev number_to_js : Option F → Option ℤ → Result (JsValue F S)
  number_to_js (some x) i = ok (numeric x)
  number_to_js none (some i) = ok (numeric (E.of_i64 i))
  number_to_js none none = err (invalid_request "Number out of range")

  abbrev pushed : ℕ → Option String → Result (Unit {0})
  pushed i none = ok tt
  pushed i (some e) =
      err (java_script_execution ("Failed to push array element " <> E.show i <> ": " <> e))

  abbrev created : String → String ⊎ JsProps F S → Result (JsProps F S)
  created key (inl e) =
      err (java_script_execution ("Failed to set property '" <> key <> "': " <> e))
  created key (inr props) = ok props

  -- The elements from position `i` on; the properties are added to those that are there.
  unfoldable mutual
    pub json_to_js_value : JsonValue N → Result (JsValue F S)
    json_to_js_value null = ok null_value
    json_to_js_value (bool b) = ok (boolean b)
    json_to_js_value (number n) = number_to_js (E.as_f64 n) (E.as_i64 n)
    json_to_js_value (string s) = ok (text_value (E.js_string s))
    json_to_js_value (array arr) = do items ← json_to_js_items 0 arr; ok (array_object items)
    json_to_js_value (object obj) = do
      props ← json_to_js_fields obj done
      ok (object_value plain props)

    pub json_to_js_items : ℕ → JsonItems N → Result (JsItems F S)
    json_to_js_items i nil = ok empty
    json_to_js_items i (cons v rest) = do
      js_value ← json_to_js_value v
      _ ← pushed i (E.push_error i js_value)
      items ← json_to_js_items (suc i) rest
      ok (item js_value items)

    pub json_to_js_fields : JsonFields N → JsProps F S → Result (JsProps F S)
    json_to_js_fields end props = ok props
    json_to_js_fields (field key value rest) props = do
      js_value ← json_to_js_value value
      props' ← created key (E.create props (E.property_key (E.js_string key)) js_value)
      json_to_js_fields rest props'

  abbrev number_to_json : Option ℤ → Option N → Result (JsonValue N)
  number_to_json (some i) n = ok (number (E.of_i32 i))
  number_to_json none (some n) = ok (number n)
  number_to_json none none = err (invalid_request "Invalid float")

  abbrev pub decoded : String ⊎ String → Result String
  decoded (inl e) = err (invalid_request ("String conversion error: " <> e))
  decoded (inr text) = ok text

  -- A symbol key has none.
  abbrev pub key_text : PropertyKey S → Option (Result String)
  key_text (name s) = some (decoded (E.to_std_string s))
  key_text (index i) = some (ok (E.show i))
  key_text (symbol_key s) = none

  -- A property is skipped or read by its key.
  abbrev by_key :
      Option (Result String)
      → Result (JsonFields N)
      → (String → Result (JsonFields N))
      → Result (JsonFields N)
  by_key none skip read = skip
  by_key (some key_str) skip read = key_str >>= read

  abbrev get_error : String → String → MadrpcError
  get_error key e = java_script_execution ("Failed to get property '" <> key <> "': " <> e)

  abbrev array_error : ArrayFault → MadrpcError
  array_error (invalid e) = invalid_request ("Object is not a valid array: " <> e)
  array_error (unmeasured e) = java_script_execution ("Failed to get array length: " <> e)
  array_error overlong = invalid_request "Array length overflow"

  abbrev keys_error : String → MadrpcError
  keys_error e = java_script_execution ("Failed to get object keys: " <> e)

  -- The elements from position `i` on; the properties are added to the map.
  unfoldable mutual
    pub js_value_to_json : JsValue F S → Result (JsonValue N)
    js_value_to_json undefined = ok null
    js_value_to_json null_value = ok null
    js_value_to_json (boolean b) = ok (bool b)
    js_value_to_json (numeric n) = number_to_json (E.as_i32 n) (E.from_f64 n)
    js_value_to_json (text_value s) = do text ← decoded (E.to_std_string s); ok (string text)
    js_value_to_json (array_object items) = do result ← js_items_to_json 0 items; ok (array result)
    js_value_to_json (object_value kind props) = do
      result ← js_props_to_json props end
      ok (object result)
    js_value_to_json (broken_array fault) = err (array_error fault)
    js_value_to_json (unlisted_object e) = err (keys_error e)
    js_value_to_json symbol = ok null
    js_value_to_json other = ok null

    pub js_items_to_json : ℕ → JsItems F S → Result (JsonItems N)
    js_items_to_json i empty = ok nil
    js_items_to_json i (item elem rest) = do
      value ← js_value_to_json elem
      values ← js_items_to_json (suc i) rest
      ok (cons value values)
    js_items_to_json i (throwing_item e rest) =
        err (java_script_execution ("Failed to get array element " <> E.show i <> ": " <> e))

    pub js_props_to_json : JsProps F S → JsonFields N → Result (JsonFields N)
    js_props_to_json done result = ok result
    js_props_to_json (prop key value rest) result =
        by_key (key_text key) (js_props_to_json rest result)
          λ k. do v ← js_value_to_json value; js_props_to_json rest (insert k v result)
    js_props_to_json (throwing_prop key e rest) result =
        by_key (key_text key) (js_props_to_json rest result) λ k. err (get_error k e)
