-- ===== src/Runtime/Bindings/Registered.antt =====
-- A function that a script registers, and the call that looks for it.
use madrpc.Prelude.{◌≡◌, ◌≢◌, inr, refl, sym, subst, String, true, false, some, List, get_elem?}
use madrpc.Protocol.{ok}
use madrpc.Runtime.Context.{Realm, js_string, get_registry, get_function}
use madrpc.Runtime.Bindings.{Natives, register}

-- What the engine promises of ordinary objects. `IsOwn c o k v` is that the object `o` has an own data
-- property `k` with the value `v`, `Settable c o k` that `o` is extensible and `k` neither read-only nor
-- an accessor, on it and on its prototypes. A read of such a property gives its value and runs no code;
-- such a write succeeds, makes an own property of `o`, leaves the own properties of the other objects and
-- which object is the global one.
module _ {C V N F S Client : Type 0} (R : Realm C V N F S) (M : Natives C V N Client)
    (IsOwn : C → V → S → V → Type 0) (Settable : C → V → S → Type 0)
    (own_get : (c : C) (o : V) (k : S) (v : V) → IsOwn c o k v → R.get o k c ≡ inr (v, c))
    (own_set : (c : C) (o : V) (k : S) (v : V)
      → Settable c o k
      → (c' : C) × (R.set o k v c ≡ inr c')
        × IsOwn c' o k v
        × ((p : V) (q : S) (w : V) → IsOwn c p q w → p ≢ o → IsOwn c' p q w)
        × (R.global_object c' ≡ R.global_object c)) where
  get_registry-found :
      (c : C) (madrpc registry : V)
      → IsOwn c (R.global_object c) (js_string R "madrpc") madrpc
      → IsOwn c madrpc (js_string R "__registry") registry
      → R.is_object madrpc ≡ true
      → R.is_object registry ≡ true
      → get_registry R c ≡ ok (registry, c)
  unfolding get_registry
  get_registry-found c madrpc registry m r a b =
      rw (get_registry, own_get c _ _ madrpc m, a, own_get c _ _ registry r, b) refl

  register-done :
      (args : List V) (name f madrpc registry : V) (key : S) (c c' : C)
      → get_elem? args 0 ≡ some name
      → R.as_string name ≡ some key
      → get_elem? args 1 ≡ some f
      → R.is_object f ≡ true
      → R.is_callable f ≡ true
      → IsOwn c (R.global_object c) (js_string R "madrpc") madrpc
      → IsOwn c madrpc (js_string R "__registry") registry
      → R.is_object madrpc ≡ true
      → R.is_object registry ≡ true
      → R.set registry key f c ≡ inr c'
      → register R M args c ≡ inr (M.undefined_value, c')
  unfolding register
  register-done args name f madrpc registry key c c' a b d e g m r h i stored =
      rw (register, a, b, d, e, g, own_get c _ _ madrpc m, h, own_get c _ _ registry r, i, stored)
        refl

  found-function :
      (method : String) (f madrpc registry : V) (c : C)
      → IsOwn c (R.global_object c) (js_string R "madrpc") madrpc
      → IsOwn c madrpc (js_string R "__registry") registry
      → IsOwn c registry (js_string R method) f
      → R.is_object madrpc ≡ true
      → R.is_object registry ≡ true
      → R.is_undefined f ≡ false
      → R.is_object f ≡ true
      → get_function R method c ≡ ok (f, c)
  unfolding get_function
  found-function method f madrpc registry c m r g a b u o =
      rw
        (
          get_function,
          get_registry-found c madrpc registry m r a b,
          own_get c registry (js_string R method) f g,
          u,
          o,
        )
        refl

  -- A function that a script registers under the name of a method is the one that a call of
  -- the method finds: `madrpc.register` succeeds, and the lookup in the state after it gives
  -- the function. `madrpc` is an own property of the global object and the registry one of
  -- `madrpc`, neither the global object nor `madrpc` is the registry, the function is one that
  -- can be called, and the registry is an ordinary object on which the name can be set.
  pub register-get_function :
      (args : List V) (name f madrpc registry : V) (method : String) (c : C)
      → get_elem? args 0 ≡ some name
      → R.as_string name ≡ some (js_string R method)
      → get_elem? args 1 ≡ some f
      → R.is_object f ≡ true
      → R.is_callable f ≡ true
      → R.is_undefined f ≡ false
      → IsOwn c (R.global_object c) (js_string R "madrpc") madrpc
      → IsOwn c madrpc (js_string R "__registry") registry
      → R.is_object madrpc ≡ true
      → R.is_object registry ≡ true
      → R.global_object c ≢ registry
      → madrpc ≢ registry
      → Settable c registry (js_string R method)
      → (c' : C) × (register R M args c ≡ inr (M.undefined_value, c'))
        × (get_function R method c' ≡ ok (f, c'))
  register-get_function args name f madrpc registry method c a b d e g u m r h i n k settable =
      let key = js_string R method in
      let (c', stored, here, others, same) = own_set c registry key f settable in
      let m' =
        subst (λ o. IsOwn c' o (js_string R "madrpc") madrpc) (sym same) (others _ _ madrpc m n) in
      let r' = others madrpc _ registry r k in
      (
        c',
        register-done args name f madrpc registry key c c' a b d e g m r h i stored,
        found-function method f madrpc registry c' m' r' here h i u e,
      )
