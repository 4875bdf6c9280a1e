-- ===== src/Metrics/Registry/Eviction.antt =====
-- The cleanup of one of the two maps of the registry: how many entries it leaves, and which.
use madrpc.Prelude.{
  ℕ, ◌-◌, ◌*◌, ◌≤◌, ◌<◌, ◌≡◌, sym, ap, ◌∙◌, subst, String, true, false, none, some, List, arith,
  length, take, ltb, contains, Distinct, Bool-cases, ltb→lt, inl, inr,
}
use mathlib.Core.Option
use madrpc.Prelude.Text.{str_dec}
use madrpc.Prelude.Word.{u64}
use madrpc.Prelude.HashMap.{keys, get, filtered, filtered-eq_some, get-retain, retain-Distinct}
use madrpc.Metrics.Registry.{sort_by_key, retain_recent, accesses, remove_all, clean}
use madrpc.Metrics.Registry.Sorting.{
  contains-sort_by_key, sort_by_key-Distinct, get-sort_by_key, length-sort_by_key,
  sort_by_key-IsOrdered,
}
use madrpc.Metrics.Registry.Removal.{
  contains-take, take-Distinct, length-take, first_oldest, get-remove_all, remove_all-Distinct,
  AllIn, length-remove_all, keys-accesses, get-accesses, length-accesses,
}

module _ {S : Type 0} (last_access : S → ℕ) (ttl_secs max_entries now : ℕ)
    (m : List (String × S)) where
  -- The entry has been used within the time to live, in milliseconds of 64 bits.
  abbrev pub IsRecent : S → Type 0
  IsRecent s = now - last_access s < u64 (ttl_secs * 1000)

  -- What a cleanup leaves.
  pub record Cleaned (r : List (String × S)) : Type 0 where
    pub distinct : Distinct str_dec (keys r)
    pub bounded : length r ≤ max_entries
    pub as_was : (k : String) (s : S) → get str_dec k r ≡ some s → get str_dec k m ≡ some s
    pub recent : (k : String) (s : S) → get str_dec k r ≡ some s → IsRecent s
    pub evicted_full :
        (k : String) (s : S)
        → get str_dec k m ≡ some s
        → IsRecent s
        → get str_dec k r ≡ none
        → length r ≡ max_entries
    pub oldest_first :
        (k j : String) (s u : S)
        → get str_dec k m ≡ some s
        → IsRecent s
        → get str_dec k r ≡ none
        → get str_dec j r ≡ some u
        → last_access s ≤ last_access u

  abbrev kept : List (String × S)
  kept = retain_recent last_access (u64 (ttl_secs * 1000)) now m

  module _ (d : Distinct str_dec (keys m)) where
    get-kept :
        (k : String)
        → get str_dec k kept
          ≡ filtered (λ s. ltb (now - last_access s) (u64 (ttl_secs * 1000))) (get str_dec k m)
    unfolding retain_recent
    get-kept k = get-retain str_dec (λ s. ltb (now - last_access s) (u64 (ttl_secs * 1000))) k m d

    kept-Distinct : Distinct str_dec (keys kept)
    unfolding retain_recent
    kept-Distinct =
        retain-Distinct str_dec (λ s. ltb (now - last_access s) (u64 (ttl_secs * 1000))) m d

    kept_as_was :
        (k : String) (s : S) → get str_dec k kept ≡ some s → (get str_dec k m ≡ some s) × IsRecent s
    kept_as_was k s e =
        let (there, test) =
          filtered-eq_some (λ s. ltb (now - last_access s) (u64 (ttl_secs * 1000)))
            (get str_dec k m) (sym (get-kept k) ∙ e) in
        (there, ltb→lt _ _ test)

    recent_kept :
        (k : String) (s : S) → get str_dec k m ≡ some s → IsRecent s → get str_dec k kept ≡ some s
    recent_kept k s e h = ground (arith, get-kept k)

    few-Cleaned : ltb max_entries (length kept) ≡ false → Cleaned kept
    few-Cleaned few = record {
      distinct = kept-Distinct;
      bounded = ground arith;
      as_was = λ k s e. (kept_as_was k s e).0;
      recent = λ k s e. (kept_as_was k s e).1;
      evicted_full = λ k s e h n. absurd (ground (arith, recent_kept k s e h));
      oldest_first = λ k j s u e h n f. absurd (ground (arith, recent_kept k s e h));
    }

    abbrev excess : ℕ
    excess = length kept - max_entries

    abbrev sorted : List (String × ℕ)
    sorted = sort_by_key (accesses last_access kept)

    abbrev evicted : List (String × ℕ)
    evicted = take excess sorted

    accesses-Distinct : Distinct str_dec (keys (accesses last_access kept))
    accesses-Distinct =
        subst (Distinct str_dec) (sym (keys-accesses last_access kept)) kept-Distinct

    evicted_in : AllIn evicted kept
    evicted_in a h = elim (Bool-cases (contains str_dec (keys kept) a)) [
      | inl t ↦ t
      | inr f ↦
          let absent : contains str_dec (keys sorted) a ≡ false =
            contains-sort_by_key a (accesses last_access kept)
            ∙ ap (λ ks. contains str_dec ks a) (keys-accesses last_access kept)
            ∙ f in
          absurd (cc (h, contains-take a excess sorted absent))
    ]

    length-evicted : length evicted ≡ excess
    length-evicted = length-take excess sorted (
        omega
          (arith, length-sort_by_key (accesses last_access kept), length-accesses last_access kept))

    abbrev remaining : List (String × S)
    remaining = remove_all evicted kept

    length-remaining : ltb max_entries (length kept) ≡ true → length remaining ≡ max_entries
    length-remaining many =
        let more : max_entries < length kept = ltb→lt _ _ many in
        omega (
          arith,
          length-evicted,
          length-remove_all evicted kept kept-Distinct
              (take-Distinct excess sorted
                (sort_by_key-Distinct (accesses last_access kept) accesses-Distinct))
              evicted_in,
        )

    get-sorted :
        (k : String) (s : S)
        → get str_dec k kept ≡ some s
        → get str_dec k sorted ≡ some (last_access s)
    get-sorted k s e =
        get-sort_by_key k (accesses last_access kept) accesses-Distinct
        ∙ get-accesses last_access k kept
        ∙ ap (Option.map last_access) e

    remaining_kept :
        (k : String) (s : S)
        → get str_dec k remaining ≡ some s
        → (contains str_dec (keys evicted) k ≡ false) × (get str_dec k kept ≡ some s)
    remaining_kept k s e = (
      ground (arith, get-remove_all k evicted kept),
      ground (arith, get-remove_all k evicted kept),
    )

    gone_evicted :
        (k : String) (s : S)
        → get str_dec k kept ≡ some s
        → get str_dec k remaining ≡ none
        → contains str_dec (keys evicted) k ≡ true
    gone_evicted k s e n = ground (arith, get-remove_all k evicted kept)

    many-Cleaned : ltb max_entries (length kept) ≡ true → Cleaned remaining
    many-Cleaned many = record {
      distinct = remove_all-Distinct evicted kept kept-Distinct;
      bounded = omega (arith, length-remaining many);
      as_was = λ k s e. (kept_as_was k s (remaining_kept k s e).1).0;
      recent = λ k s e. (kept_as_was k s (remaining_kept k s e).1).1;
      evicted_full = λ k s e h n. length-remaining many;
      oldest_first = λ k j s u e h n f.
          let here = recent_kept k s e h in
          let there = remaining_kept j u f in
          first_oldest excess sorted k j (last_access s) (last_access u)
            (sort_by_key-IsOrdered (accesses last_access kept))
            (sort_by_key-Distinct (accesses last_access kept) accesses-Distinct)
            (gone_evicted k s here n) there.0 (get-sorted k s here) (get-sorted j u there.1);
    }

    -- A cleanup of one of the registry's maps, whose keys are distinct, leaves at most the
    -- allowed number of entries, with distinct keys, each as it was and used within its time
    -- to live. A recent entry is removed only if the map is left full, and then it was used
    -- no later than any entry that stays.
    pub clean-Cleaned : Cleaned (clean last_access ttl_secs max_entries now m)
    unfolding clean
    clean-Cleaned = elim (Bool-cases (ltb max_entries (length kept))) [
      | inl many ↦ rw many (many-Cleaned many)
      | inr few ↦ rw few (few-Cleaned few)
    ]
