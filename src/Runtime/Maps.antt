-- ===== src/Runtime/Maps.antt =====
-- The entries of an object of JSON in the order of the keys, and what adding one does.
use Prim.Native.Nat.{Ordering}
use Prim.Native.String.{compare}
use madrpc.Prelude.{String, ◌≡◌, ◌≢◌, inl, inr, refl, sym, subst, arith}
use madrpc.Prelude.Order.{Below, compare_cases, swap_lt, compare-lt_trans}
use madrpc.Runtime.{JsonValue, JsonFields, end, field}
use madrpc.Runtime.Conversions.{insert}

module _ {N : Type 0} where
  -- Every key comes after `key`.
  abbrev pub AllAfter : String → JsonFields N → Type 0
  AllAfter key end = Unit
  AllAfter key (field k v rest) = (compare key k ≡ Ordering.lt) × AllAfter key rest

  -- The keys are in order, and so no two are equal.
  abbrev pub IsSorted : JsonFields N → Type 0
  IsSorted end = Unit
  IsSorted (field k v rest) = AllAfter k rest × IsSorted rest

  -- A smaller key goes to the front.
  pub insert-AllAfter :
      (key : String) (v : JsonValue N) (fs : JsonFields N)
      → AllAfter key fs
      → insert key v fs ≡ field key v fs
  unfolding insert
  insert-AllAfter key v end h = refl
  insert-AllAfter key v (field k w rest) h = rw (h.0, insert) refl

  insert-Below :
      (a b : String) (v w : JsonValue N) (fs : JsonFields N)
      → Below a b
      → insert a v (insert b w fs) ≡ insert b w (insert a v fs)
  unfolding insert
  insert-Below a b v w end h = ground (arith, h.0, h.1)
  insert-Below a b v w (field k u rest) h = elim (compare_cases a k) [
    | inl below ↦ elim (compare_cases b k) [
      | inl c ↦ ground (arith, h.0, h.1, below.0, c.0)
      | inr (inl c) ↦ ground (arith, h.0, h.1, below.0, c.0)
      | inr (inr c) ↦ ground (arith, h.0, h.1, below.0, c.1)
    ]
    | inr (inl same) ↦
        let late : compare b k ≡ Ordering.gt = subst (λ x. compare b x ≡ Ordering.gt) same.1 h.1 in
        ground (arith, h.1, same.0, late)
    | inr (inr above) ↦
        let late = swap_lt k b (compare-lt_trans k a b above.0 h.0) in
        ground (arith, above.1, late, insert-Below a b v w rest h)
  ]

  -- Two entries with different keys may be added in either order.
  pub insert_comm :
      (a b : String) (v w : JsonValue N) (fs : JsonFields N)
      → a ≢ b
      → insert a v (insert b w fs) ≡ insert b w (insert a v fs)
  insert_comm a b v w fs n = elim (compare_cases a b) [
    | inl below ↦ insert-Below a b v w fs below
    | inr (inl same) ↦ absurd (n same.1)
    | inr (inr above) ↦ sym (insert-Below b a w v fs above)
  ]

  -- The entries of the first object, added to the second from the last to the first.
  unfoldable pub insert_all : JsonFields N → JsonFields N → JsonFields N
  insert_all end fs = fs
  insert_all (field k v rest) fs = insert k v (insert_all rest fs)

  pub insert_all-IsSorted : (fs : JsonFields N) → IsSorted fs → insert_all fs end ≡ fs
  unfolding insert_all
  insert_all-IsSorted end s = refl
  insert_all-IsSorted (field k v rest) s =
      rw (insert_all-IsSorted rest s.1) (insert-AllAfter k v rest s.0)
