-- ===== src/Metrics/Registry/Sorting.antt =====
-- `sort_by_key` on accesses, by name: what it keeps, and the order that it makes.
use madrpc.Prelude.{
  ℕ, suc, ◌≤◌, ◌≡◌, refl, ap, ◌∙◌, String, true, false, some, List, [], ◌∷◌, arith, ite, length,
  leb, contains, Distinct, Bool-cases, leb→le, inl, inr,
}
use madrpc.Prelude.Text.{str_dec}
use madrpc.Prelude.HashMap.{keys, get, Every}
use madrpc.Metrics.Registry.{insert_by_key, sort_by_key}

contains-insert_by_key :
    (a : String) (e : String × ℕ) (es : List (String × ℕ))
    → contains str_dec (keys (insert_by_key e es)) a
      ≡ ite (str_dec a e.0) true (contains str_dec (keys es) a)
unfolding insert_by_key
contains-insert_by_key a e [] = refl
contains-insert_by_key a e (f ∷ es) = ground (arith, contains-insert_by_key a e es)

pub contains-sort_by_key :
    (a : String) (es : List (String × ℕ))
    → contains str_dec (keys (sort_by_key es)) a ≡ contains str_dec (keys es) a
unfolding sort_by_key
contains-sort_by_key a [] = refl
contains-sort_by_key a (e ∷ es) =
    ground (arith, contains-insert_by_key a e (sort_by_key es), contains-sort_by_key a es)

get-insert_by_key :
    (a : String) (e : String × ℕ) (es : List (String × ℕ))
    → contains str_dec (keys es) e.0 ≡ false
    → get str_dec a (insert_by_key e es) ≡ ite (str_dec a e.0) (some e.1) (get str_dec a es)
unfolding insert_by_key get
get-insert_by_key a e [] h = refl
get-insert_by_key a e (f ∷ es) h = ground (arith, get-insert_by_key a e es)

insert_by_key-Distinct :
    (e : String × ℕ) (es : List (String × ℕ))
    → contains str_dec (keys es) e.0 ≡ false
    → Distinct str_dec (keys es)
    → Distinct str_dec (keys (insert_by_key e es))
unfolding insert_by_key
insert_by_key-Distinct e [] h d = (h, tt)
insert_by_key-Distinct e (f ∷ es) h d =
    ground (arith, insert_by_key-Distinct e es, contains-insert_by_key f.0 e es)

pub sort_by_key-Distinct :
    (es : List (String × ℕ)) → Distinct str_dec (keys es) → Distinct str_dec (keys (sort_by_key es))
unfolding sort_by_key
sort_by_key-Distinct [] d = tt
sort_by_key-Distinct (e ∷ es) d =
    insert_by_key-Distinct e (sort_by_key es) (contains-sort_by_key e.0 es ∙ d.0)
      (sort_by_key-Distinct es d.1)

pub get-sort_by_key :
    (a : String) (es : List (String × ℕ))
    → Distinct str_dec (keys es)
    → get str_dec a (sort_by_key es) ≡ get str_dec a es
unfolding sort_by_key get
get-sort_by_key a [] d = refl
get-sort_by_key a (e ∷ es) d =
    get-insert_by_key a e (sort_by_key es) (contains-sort_by_key e.0 es ∙ d.0)
    ∙ ap (ite (str_dec a e.0) (some e.1)) (get-sort_by_key a es d.1)

length-insert_by_key :
    (e : String × ℕ) (es : List (String × ℕ)) → length (insert_by_key e es) ≡ suc (length es)
unfolding insert_by_key
length-insert_by_key e [] = refl
length-insert_by_key e (f ∷ es) = ground (arith, length-insert_by_key e es)

pub length-sort_by_key : (es : List (String × ℕ)) → length (sort_by_key es) ≡ length es
unfolding sort_by_key
length-sort_by_key [] = refl
length-sort_by_key (e ∷ es) =
    length-insert_by_key e (sort_by_key es) ∙ ap suc (length-sort_by_key es)

-- No entry is older than one before it.
abbrev pub AtLeast : ℕ → String → ℕ → Type 0
AtLeast t name u = t ≤ u

abbrev pub IsOrdered : List (String × ℕ) → Type 0
IsOrdered [] = Unit
IsOrdered (e ∷ es) = Every str_dec (AtLeast e.1) es × IsOrdered es

insert_by_key-AtLeast :
    (t : ℕ) (e : String × ℕ) (es : List (String × ℕ))
    → t ≤ e.1
    → Every str_dec (AtLeast t) es
    → Every str_dec (AtLeast t) (insert_by_key e es)
unfolding insert_by_key
insert_by_key-AtLeast t e [] h a = (h, tt)
insert_by_key-AtLeast t e (f ∷ es) h a = ground (arith, insert_by_key-AtLeast t e es)

AtLeast-weaken :
    (t u : ℕ) (es : List (String × ℕ))
    → t ≤ u
    → Every str_dec (AtLeast u) es
    → Every str_dec (AtLeast t) es
AtLeast-weaken t u [] h a = tt
AtLeast-weaken t u (e ∷ es) h a = (omega (arith, a.0), AtLeast-weaken t u es h a.1)

insert_by_key-IsOrdered :
    (e : String × ℕ) (es : List (String × ℕ)) → IsOrdered es → IsOrdered (insert_by_key e es)
unfolding insert_by_key
insert_by_key-IsOrdered e [] o = (tt, tt)
insert_by_key-IsOrdered e (f ∷ es) o = elim (Bool-cases (leb e.1 f.1)) [
  | inl h ↦
      let le : e.1 ≤ f.1 = leb→le e.1 f.1 h in rw h ((le, AtLeast-weaken e.1 f.1 es le o.0), o)
  | inr h ↦
      rw h (insert_by_key-AtLeast f.1 e es (ground arith) o.0, insert_by_key-IsOrdered e es o.1)
]

pub sort_by_key-IsOrdered : (es : List (String × ℕ)) → IsOrdered (sort_by_key es)
unfolding sort_by_key
sort_by_key-IsOrdered [] = tt
sort_by_key-IsOrdered (e ∷ es) =
    insert_by_key-IsOrdered e (sort_by_key es) (sort_by_key-IsOrdered es)
