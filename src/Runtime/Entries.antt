-- ===== src/Runtime/Entries.antt =====
-- The properties of an object of the engine, one more at a time.
use Prim.Native.Nat.{Ordering}
use Prim.Native.String.{compare}
use text.Mathlib.TextPositions.{compare_refl}
use madrpc.Prelude.{
  String, ◌≡◌, ◌≢◌, ◌⊎◌, inl, inr, refl, sym, ap, ◌∙◌, Option, none, some, some_inj,
}
use madrpc.Protocol.{MadrpcError, Result, ok, err}
use madrpc.Runtime.{
  JsonValue, JsonFields, end, field, PropertyKey, JsValue, JsProps, done, prop, Engine,
}
use madrpc.Runtime.Conversions.{insert, js_value_to_json, js_props_to_json, key_text}
use madrpc.Runtime.Maps.{AllAfter, insert_comm}
use madrpc.Runtime.Laws.{Inserted, here, after_prop, after_throwing, Without, IsLawful}

module _ {N F S : Type 0} (E : Engine N F S) (L : IsLawful E) where
  -- The text of a key: a symbol's, one that cannot be read, or one that can.
  key_cases :
      (k : PropertyKey S)
      → (key_text E k ≡ none)
        ⊎ (((x : MadrpcError) × (key_text E k ≡ some (err x)))
            ⊎ ((t : String) × (key_text E k ≡ some (ok t))))
  key_cases k = by_text (key_text E k) refl
    where
      by_text :
          (o : Option (Result String))
          → key_text E k ≡ o
          → (key_text E k ≡ none)
            ⊎ (((x : MadrpcError) × (key_text E k ≡ some (err x)))
                ⊎ ((t : String) × (key_text E k ≡ some (ok t))))
      by_text none e = inl e
      by_text (some (err x)) e = inr (inl (x, e))
      by_text (some (ok t)) e = inr (inr (t, e))

  value_cases :
      (u : JsValue F S)
      → ((x : MadrpcError) × (js_value_to_json E u ≡ err x))
        ⊎ ((j : JsonValue N) × (js_value_to_json E u ≡ ok j))
  value_cases u = by_result (js_value_to_json E u) refl
    where
      by_result :
          (r : Result (JsonValue N))
          → js_value_to_json E u ≡ r
          → ((x : MadrpcError) × (js_value_to_json E u ≡ err x))
            ⊎ ((j : JsonValue N) × (js_value_to_json E u ≡ ok j))
      by_result (err x) e = inl (x, e)
      by_result (ok j) e = inr (j, e)

  props-prop :
      (k : PropertyKey S) (s : String) (v : JsValue F S) (j : JsonValue N) (ps : JsProps F S)
      → (m : JsonFields N) → key_text E k ≡ some (ok s)
      → js_value_to_json E v ≡ ok j
      → js_props_to_json E (prop k v ps) m ≡ js_props_to_json E ps (insert s j m)
  unfolding js_props_to_json
  props-prop k s v j ps m z e = rw (js_props_to_json, z, e) refl

  -- Reading an object with one property more adds the entry first.
  pub props-Inserted :
      (s : String) (v : JsValue F S) (j : JsonValue N)
      → js_value_to_json E v ≡ ok j
      → {ps qs : JsProps F S} → Inserted (E.property_key (E.js_string s)) v ps qs
      → (m : JsonFields N) → Without E s ps
      → js_props_to_json E qs m ≡ js_props_to_json E ps (insert s j m)
  unfolding js_props_to_json
  props-Inserted s v j e (here ps) m w = props-prop _ s v j ps m (L.keys s) e
  props-Inserted s v j e (after_prop k u {ps} {qs} rest) m w = elim (key_cases k) [
    | inl z ↦ rw (js_props_to_json, z) (props-Inserted s v j e rest m w.1)
    | inr (inl (x, z)) ↦ rw (js_props_to_json, z) refl
    | inr (inr (t, z)) ↦ elim (value_cases u) [
      | inl (x, y) ↦ rw (js_props_to_json, z, y) refl
      | inr (i, y) ↦
          rw (js_props_to_json, z, y)
            (props-Inserted s v j e rest (insert t i m) w.1
              ∙ ap (js_props_to_json E ps)
                  (insert_comm s t j i m (λ same. w.0 (z ∙ ap (λ a. some (ok a)) (sym same)))))
    ]
  ]
  props-Inserted s v j e (after_throwing k x {ps} {qs} rest) m w = elim (key_cases k) [
    | inl z ↦ rw (js_props_to_json, z) (props-Inserted s v j e rest m w.1)
    | inr (inl (x', z)) ↦ rw (js_props_to_json, z) refl
    | inr (inr (t, z)) ↦ rw (js_props_to_json, z) refl
  ]

  ok_inj : {A : Type 0} {a b : A} → ok a ≡ ok b → a ≡ b
  ok_inj h = cc

  Inserted-Without :
      (s t : String) (v : JsValue F S) {ps qs : JsProps F S}
      → Inserted (E.property_key (E.js_string s)) v ps qs
      → s ≢ t
      → Without E t ps
      → Without E t qs
  Inserted-Without s t v (here ps) n w = ((λ e. n (ok_inj (some_inj (sym (L.keys s) ∙ e)))), w)
  Inserted-Without s t v (after_prop k u rest) n w = (w.0, Inserted-Without s t v rest n w.1)
  Inserted-Without s t v (after_throwing k x rest) n w = (w.0, Inserted-Without s t v rest n w.1)

  abbrev pub AllWithout : JsonFields N → JsProps F S → Type 0
  AllWithout end ps = Unit
  AllWithout (field k j rest) ps = Without E k ps × AllWithout rest ps

  pub AllWithout-done : (js : JsonFields N) → AllWithout js done
  AllWithout-done end = tt
  AllWithout-done (field k j rest) = (tt, AllWithout-done rest)

  not_same : (s t : String) → compare s t ≡ Ordering.lt → s ≢ t
  not_same s t h e = absurd (cc (h, compare_refl s, ap (compare s) e))

  pub Inserted-AllWithout :
      (s : String) (v : JsValue F S) {ps qs : JsProps F S}
      → Inserted (E.property_key (E.js_string s)) v ps qs
      → (js : JsonFields N) → AllAfter s js
      → AllWithout js ps
      → AllWithout js qs
  Inserted-AllWithout s v ins end a w = tt
  Inserted-AllWithout s v ins (field t j rest) a w =
      (Inserted-Without s t v ins (not_same s t a.0) w.0, Inserted-AllWithout s v ins rest a.1 w.1)
