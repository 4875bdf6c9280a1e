-- ===== src/Runtime/Roundtrip.antt =====
-- A JSON value that goes into the engine and comes back.
use madrpc.Prelude.{ℕ, suc, ◌≡◌, inl, inr, refl, ◌∙◌}
use madrpc.Protocol.{ok}
use madrpc.Runtime.{
  JsonValue, null, bool, number, string, array, object, JsonItems, nil, cons, JsonFields, end,
  field, JsValue, numeric, array_object, object_value, plain, JsItems, item, JsProps, done, Engine,
}
use madrpc.Runtime.Conversions.{
  json_to_js_value, json_to_js_items, json_to_js_fields, js_value_to_json, js_items_to_json,
  js_props_to_json,
}
use madrpc.Runtime.Maps.{IsSorted, insert_all, insert_all-IsSorted}
use madrpc.Runtime.Laws.{IsLawful, IsPortable, ArePortable, FieldsPortable}
use madrpc.Runtime.Entries.{props-Inserted, AllWithout, AllWithout-done, Inserted-AllWithout}

module _ {N F S : Type 0} (E : Engine N F S) (L : IsLawful E) where
  mutual
    unfolding json_to_js_value js_value_to_json IsPortable insert_all

    value-roundtrip :
        (j : JsonValue N)
        → IsPortable E j
        → (v : JsValue F S) × (json_to_js_value E j ≡ ok v) × (js_value_to_json E v ≡ ok j)
    value-roundtrip null p = (_, refl, refl)
    value-roundtrip (bool b) p = (_, refl, refl)
    value-roundtrip (number n) (x, a, inl (i, b, c)) =
        (numeric x, (rw (json_to_js_value, a) refl), (rw (js_value_to_json, b, c) refl))
    value-roundtrip (number n) (x, a, inr (b, c)) =
        (numeric x, (rw (json_to_js_value, a) refl), (rw (js_value_to_json, b, c) refl))
    value-roundtrip (string s) p = (_, refl, (rw (js_value_to_json, L.texts s) refl))
    value-roundtrip (array items) p =
        let (vs, a, b) = items-roundtrip 0 items p in
        (array_object vs, (rw (json_to_js_value, a) refl), (rw (js_value_to_json, b) refl))
    value-roundtrip (object fields) p =
        let (ps, a, b) = fields-roundtrip fields done p.0 p.1 (AllWithout-done E L fields) in
        (
          object_value plain ps,
          (rw (json_to_js_value, a) refl),
          (rw (js_value_to_json, b end, js_props_to_json, insert_all-IsSorted fields p.0) refl),
        )

    items-roundtrip :
        (i : ℕ) (js : JsonItems N)
        → ArePortable E js
        → (vs : JsItems F S) × (json_to_js_items E i js ≡ ok vs) × (js_items_to_json E i vs ≡ ok js)
    items-roundtrip i nil p = (_, refl, refl)
    items-roundtrip i (cons j rest) p =
        let (v, a, b) = value-roundtrip j p.0 in
        let (vs, c, d) = items-roundtrip (suc i) rest p.1 in
        (
          item v vs,
          (rw (json_to_js_items, a, L.pushes i v, c) refl),
          (rw (js_items_to_json, b, d) refl),
        )

    fields-roundtrip :
        (js : JsonFields N) (ps : JsProps F S)
        → IsSorted js
        → FieldsPortable E js
        → AllWithout E L js ps
        → (qs : JsProps F S) × (json_to_js_fields E js ps ≡ ok qs)
          × ((m : JsonFields N) → js_props_to_json E qs m ≡ js_props_to_json E ps (insert_all js m))
    fields-roundtrip end ps s p w = (ps, refl, λ m. refl)
    fields-roundtrip (field k j rest) ps s p w =
        let (v, a, b) = value-roundtrip j p.0 in
        let (ps', c, ins) = L.creates ps k v w.0 in
        let (qs, d, e) =
          fields-roundtrip rest ps' s.1 p.1 (Inserted-AllWithout E L k v ins rest s.0 w.1) in
        (
          qs,
          (rw (json_to_js_fields, a, c) d),
          λ m. e m ∙ props-Inserted E L k v j b ins (insert_all rest m) w.0,
        )

  -- A JSON value goes into the engine and what it becomes there reads back as the same value:
  -- neither conversion fails. Every number of the value is one that a double stands for and
  -- that is written as serde_json writes that double, and the keys of every object are in
  -- order, as in every map of serde_json. The engine keeps texts and keys, and puts a new
  -- property at whatever place its own order of the keys gives it.
  pub js_value_to_json-json_to_js_value :
      (j : JsonValue N)
      → IsPortable E j
      → (v : JsValue F S) × (json_to_js_value E j ≡ ok v) × (js_value_to_json E v ≡ ok j)
  js_value_to_json-json_to_js_value j p = value-roundtrip j p
