-- ===== src/Runtime/Laws.antt =====
-- What the conversions rely on of the engine, and the values that a conversion keeps.
use madrpc.Prelude.{ℕ, String, ◌≡◌, ◌≢◌, ◌⊎◌, inr, none, some}
use madrpc.Float.{ℤ}
use madrpc.Protocol.{ok}
use madrpc.Runtime.{
  JsonValue, null, bool, number, string, array, object, JsonItems, nil, cons, JsonFields, end,
  field, PropertyKey, JsValue, JsProps, done, prop, throwing_prop, Engine,
}
use madrpc.Runtime.Conversions.{key_text}
use madrpc.Runtime.Maps.{IsSorted}

module _ {F S : Type 0} where
  -- The second object is the first with one property more, at some place.
  pub data Inserted (key : PropertyKey S) (v : JsValue F S)
      : JsProps F S → JsProps F S → Type 0 where
    here : (ps : JsProps F S) → Inserted key v ps (prop key v ps)
    after_prop :
        (k : PropertyKey S) (u : JsValue F S) {ps qs : JsProps F S}
        → Inserted key v ps qs
        → Inserted key v (prop k u ps) (prop k u qs)
    after_throwing :
        (k : PropertyKey S) (e : String) {ps qs : JsProps F S}
        → Inserted key v ps qs
        → Inserted key v (throwing_prop k e ps) (throwing_prop k e qs)

module _ {N F S : Type 0} (E : Engine N F S) where
  -- No property has the text as its key.
  abbrev pub Without : String → JsProps F S → Type 0
  Without s done = Unit
  Without s (prop k v rest) = (key_text E k ≢ some (ok s)) × Without s rest
  Without s (throwing_prop k e rest) = (key_text E k ≢ some (ok s)) × Without s rest

  -- What serde_json and the engine document: a text is not changed by the engine, a key is the
  -- property's text, and an array and an object that the conversion has made take what is added,
  -- an object a new property at the place that the order of the own property keys gives it.
  pub record IsLawful : Type 0 where
    pub texts : (s : String) → E.to_std_string (E.js_string s) ≡ inr s
    pub keys : (s : String) → key_text E (E.property_key (E.js_string s)) ≡ some (ok s)
    pub pushes : (i : ℕ) (v : JsValue F S) → E.push_error i v ≡ none
    pub creates :
        (ps : JsProps F S) (s : String) (v : JsValue F S)
        → Without s ps
        → (qs : JsProps F S) × (E.create ps (E.property_key (E.js_string s)) v ≡ inr qs)
          × Inserted (E.property_key (E.js_string s)) v ps qs

  -- A double stands for the number: an integer of 32 bits that is written so, or another.
  abbrev pub IsExact : N → Type 0
  IsExact n =
      (x : F) × (E.as_f64 n ≡ some x)
      × (((i : ℤ) × (E.as_i32 x ≡ some i) × (E.of_i32 i ≡ n))
          ⊎ ((E.as_i32 x ≡ none) × (E.from_f64 x ≡ some n)))

  -- Every number is exact, and the keys of every object are in order.
  unfoldable mutual
    pub IsPortable : JsonValue N → Type 0
    IsPortable null = Unit
    IsPortable (bool b) = Unit
    IsPortable (number n) = IsExact n
    IsPortable (string s) = Unit
    IsPortable (array items) = ArePortable items
    IsPortable (object fields) = IsSorted fields × FieldsPortable fields

    pub ArePortable : JsonItems N → Type 0
    ArePortable nil = Unit
    ArePortable (cons v rest) = IsPortable v × ArePortable rest

    pub FieldsPortable : JsonFields N → Type 0
    FieldsPortable end = Unit
    FieldsPortable (field k v rest) = IsPortable v × FieldsPortable rest
