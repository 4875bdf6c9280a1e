-- ===== src/Runtime/Readable.antt =====
-- The values of the engine that can be written as JSON.
use madrpc.Prelude.{
  ℕ, suc, String, ◌≡◌, ◌⊎◌, inl, inr, refl, ap, ◌∙◌, Bool, true, false, ◌&&◌, Option, none, some,
  arith,
}
use madrpc.Float.{ℤ}
use madrpc.Protocol.{Result, ok, err}
use madrpc.Runtime.{
  JsonFields, end, PropertyKey, name, index, symbol_key, JsValue, undefined, null_value, boolean,
  numeric, text_value, array_object, object_value, broken_array, unlisted_object, symbol, other,
  JsItems, empty, item, throwing_item, JsProps, done, prop, throwing_prop, Engine,
}
use madrpc.Runtime.Conversions.{
  ◌>>=◌, decoded, insert, js_value_to_json, js_items_to_json, js_props_to_json,
}

abbrev pub succeeds : {A : Type 0} → Result A → Bool
succeeds (ok a) = true
succeeds (err e) = false

succeeds-bind :
    {A B : Type 0} (r : Result A) (f : A → Result B) (b : Bool)
    → ((a : A) → succeeds (f a) ≡ b)
    → succeeds (r >>= f) ≡ succeeds r && b
succeeds-bind (ok a) f b h = h a
succeeds-bind (err e) f b h = refl

module _ {N F S : Type 0} (E : Engine N F S) where
  abbrev has_text : String ⊎ String → Bool
  has_text (inl e) = false
  has_text (inr t) = true

  abbrev is_finite : Option ℤ → Option N → Bool
  is_finite (some i) n = true
  is_finite none (some n) = true
  is_finite none none = false

  -- A property with a symbol as its key is not read.
  abbrev is_kept : PropertyKey S → Bool → Bool
  is_kept (name s) b = has_text (E.to_std_string s) && b
  is_kept (index i) b = b
  is_kept (symbol_key s) b = true

  -- The numbers are ones of JSON, the texts and keys are proper UTF-16, the arrays have a length and the
  -- objects list their keys, and nothing that is read throws.
  unfoldable mutual
    pub readable : JsValue F S → Bool
    readable undefined = true
    readable null_value = true
    readable (boolean b) = true
    readable (numeric n) = is_finite (E.as_i32 n) (E.from_f64 n)
    readable (text_value s) = has_text (E.to_std_string s)
    readable (array_object items) = readable_items items
    readable (object_value kind props) = readable_props props
    readable (broken_array fault) = false
    readable (unlisted_object e) = false
    readable symbol = true
    readable other = true

    pub readable_items : JsItems F S → Bool
    readable_items empty = true
    readable_items (item v rest) = readable v && readable_items rest
    readable_items (throwing_item e rest) = false

    pub readable_props : JsProps F S → Bool
    readable_props done = true
    readable_props (prop key v rest) = is_kept key (readable v) && readable_props rest
    readable_props (throwing_prop key e rest) = is_kept key false && readable_props rest

  succeeds-decoded :
      (s : S) (b c : Bool)
      → succeeds (decoded E (E.to_std_string s)) && (b && c)
        ≡ (has_text (E.to_std_string s) && b) && c
  succeeds-decoded s b c = ground arith

  entry-readable :
      (k : String) (v : JsValue F S) (rest : JsProps F S) (m : JsonFields N)
      → succeeds (js_value_to_json E v) ≡ readable v
      → ((n : JsonFields N) → succeeds (js_props_to_json E rest n) ≡ readable_props rest)
      → succeeds (js_value_to_json E v >>= λ j. js_props_to_json E rest (insert k j m))
        ≡ readable v && readable_props rest
  entry-readable k v rest m e h =
      succeeds-bind (js_value_to_json E v) _ (readable_props rest) (λ j. h (insert k j m))
      ∙ ap (λ b. b && readable_props rest) e

  mutual
    unfolding readable js_value_to_json

    value-readable : (v : JsValue F S) → succeeds (js_value_to_json E v) ≡ readable v
    value-readable undefined = refl
    value-readable null_value = refl
    value-readable (boolean b) = refl
    value-readable (numeric n) = ground arith
    value-readable (text_value s) = ground arith
    value-readable (array_object items) = ground (arith, items-readable 0 items)
    value-readable (object_value kind props) = ground (arith, props-readable props end)
    value-readable (broken_array fault) = refl
    value-readable (unlisted_object e) = refl
    value-readable symbol = refl
    value-readable other = refl

    items-readable :
        (i : ℕ) (vs : JsItems F S) → succeeds (js_items_to_json E i vs) ≡ readable_items vs
    items-readable i empty = refl
    items-readable i (item v rest) = ground (arith, value-readable v, items-readable (suc i) rest)
    items-readable i (throwing_item e rest) = refl

    props-readable :
        (ps : JsProps F S) (m : JsonFields N)
        → succeeds (js_props_to_json E ps m) ≡ readable_props ps
    props-readable done m = refl
    props-readable (prop (name s) v rest) m =
        succeeds-bind (decoded E (E.to_std_string s)) _ (readable v && readable_props rest)
          (λ k. entry-readable k v rest m (value-readable v) (λ n. props-readable rest n))
        ∙ succeeds-decoded s (readable v) (readable_props rest)
    props-readable (prop (index i) v rest) m =
        entry-readable (E.show i) v rest m (value-readable v) (λ n. props-readable rest n)
    props-readable (prop (symbol_key s) v rest) m = props-readable rest m
    props-readable (throwing_prop (name s) e rest) m = ground arith
    props-readable (throwing_prop (index i) e rest) m = refl
    props-readable (throwing_prop (symbol_key s) e rest) m = props-readable rest m

  -- The conversion to JSON succeeds exactly on a value whose numbers are ones of JSON, whose
  -- texts and keys are proper UTF-16, whose arrays have a length that can be read and fits,
  -- whose objects list their keys, and none of whose elements and properties throws where it
  -- is read; properties under symbols are not read.
  pub js_value_to_json-readable : (v : JsValue F S) → succeeds (js_value_to_json E v) ≡ readable v
  js_value_to_json-readable v = value-readable v
