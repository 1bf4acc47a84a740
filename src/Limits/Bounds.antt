-- ===== src/Limits/Bounds.antt =====
-- Bounds of the in-memory limiter's store.
use ziguijia_translate_ml.Common.{
  ℕ, String, ◌≡◌, true, not, List, [], ◌∷◌, ◌++◌, ◌+◌, ◌≤◌, ltb, leb, keep, All, All-keep, length,
  length-append, length-keep-le, str_eq, arith, Bool-cases, inl, inr, leb→le,
}
use ziguijia_translate_ml.Limits.{
  Store, dict_get, dict_set, dict_remove, is_stale, evict, max_entries, maybe_cleanup, prune,
  store_pruned, check,
}

length-evict-le : (max : ℕ) (d : Store) → length (evict max d) ≤ max
unfolding evict
length-evict-le max [] = omega arith
length-evict-le max (e ∷ d) = ground (arith, length-evict-le max d)

length-dict_remove-le : (k : String) (d : Store) → length (dict_remove k d) ≤ length d
unfolding dict_remove
length-dict_remove-le k [] = omega arith
length-dict_remove-le k ((j, w) ∷ d) = ground (arith, length-dict_remove-le k d)

module _ (limit : ℕ) where
  -- No key has more than `limit` times.
  abbrev pub IsLimited : Store → Type 0
  IsLimited = All (λ (e : String × List ℕ). length e.1 ≤ limit)

  dict_get-le : (k : String) (d : Store) → IsLimited d → length (dict_get k d) ≤ limit
  unfolding dict_get
  dict_get-le k [] h = omega arith
  dict_get-le k ((j, v) ∷ d) h = ground (arith, h.0, dict_get-le k d h.1)

  dict_set-IsLimited :
      (k : String) (v : List ℕ) (d : Store)
      → length v ≤ limit
      → IsLimited d
      → IsLimited (dict_set k v d)
  unfolding dict_set
  dict_set-IsLimited k v [] le h = (le, tt)
  dict_set-IsLimited k v ((j, w) ∷ d) le h = elim (Bool-cases (str_eq j k)) [
    | inl same ↦ rw same (le, h.1)
    | inr other ↦ rw other (h.0, dict_set-IsLimited k v d le h.1)
  ]

  dict_remove-IsLimited : (k : String) (d : Store) → IsLimited d → IsLimited (dict_remove k d)
  unfolding dict_remove
  dict_remove-IsLimited k [] h = tt
  dict_remove-IsLimited k ((j, w) ∷ d) h = elim (Bool-cases (str_eq j k)) [
    | inl same ↦ rw same h.1
    | inr other ↦ rw other (h.0, dict_remove-IsLimited k d h.1)
  ]

  evict-IsLimited : (max : ℕ) (d : Store) → IsLimited d → IsLimited (evict max d)
  unfolding evict
  evict-IsLimited max [] h = tt
  evict-IsLimited max (e ∷ d) h = elim (Bool-cases (ltb max (length (e ∷ d)))) [
    | inl over ↦ rw over (evict-IsLimited max d h.1)
    | inr within ↦ rw within h
  ]

  module _ (window : ℕ) where
    maybe_cleanup-IsLimited :
        (now : ℕ) (d : Store) → IsLimited d → IsLimited (maybe_cleanup limit window now d)
    unfolding maybe_cleanup
    maybe_cleanup-IsLimited now d h = elim (Bool-cases (leb (length d) max_entries)) [
      | inl small ↦ rw small h
      | inr large ↦ rw large (
          evict-IsLimited max_entries (keep (λ e. not (is_stale window now e.1)) d) (
            All-keep (λ (e : String × List ℕ). length e.1 ≤ limit)
              (λ e. not (is_stale window now e.1)) d h))
    ]

    store_pruned-IsLimited :
        (k : String) (ts : List ℕ) (d : Store)
        → length ts ≤ limit
        → IsLimited d
        → IsLimited (store_pruned limit window k ts d)
    unfolding store_pruned
    store_pruned-IsLimited k [] d le h = dict_remove-IsLimited k d h
    store_pruned-IsLimited k (t ∷ ts) d le h = dict_set-IsLimited k (t ∷ ts) d le h

    prune-le :
        (now : ℕ) (k : String) (d : Store)
        → IsLimited d
        → length (prune limit window now (dict_get k d)) ≤ limit
    prune-le now k d h =
        omega (arith, length-keep-le (λ t. ltb now (t + window)) (dict_get k d), dict_get-le k d h)

    -- A check, whether it admits or refuses, leaves no key with more times than the limit, if no key
    -- had more.
    pub check-IsLimited :
        (now : ℕ) (key : String) (d : Store)
        → IsLimited d
        → IsLimited (check limit window now key d).1
    unfolding check
    check-IsLimited now key d h =
        elim (Bool-cases (leb limit (length (prune limit window now (dict_get key d))))) [
          | inl full ↦ rw full pruned
          | inr free ↦ rw free (
              maybe_cleanup-IsLimited now _ (
                dict_set-IsLimited key _ _
                  (ground
                    (arith, length-append (prune limit window now (dict_get key d)) (now ∷ [])))
                  pruned))
        ]
      where
        pruned :
            IsLimited (store_pruned limit window key (prune limit window now (dict_get key d)) d)
        pruned = store_pruned-IsLimited key _ d (prune-le now key d h) h

    length-maybe_cleanup-le :
        (now : ℕ) (d : Store) → length (maybe_cleanup limit window now d) ≤ max_entries
    unfolding maybe_cleanup
    length-maybe_cleanup-le now d = ground (
      arith,
      length-evict-le max_entries (keep (λ e. not (is_stale window now e.1)) d),
      leb→le (length d) max_entries,
    )

    -- After a check that admits a request, the store has at most 10000 keys, however many it had.
    pub length-check-le :
        (now : ℕ) (key : String) (d : Store)
        → (check limit window now key d).0 ≡ true
        → length (check limit window now key d).1 ≤ max_entries
    unfolding check
    length-check-le now key d admitted =
        elim (Bool-cases (leb limit (length (prune limit window now (dict_get key d))))) [
          | inl full ↦ ground arith
          | inr free ↦ rw free (
              length-maybe_cleanup-le now (
                dict_set key (prune limit window now (dict_get key d) ++ now ∷ [])
                  (store_pruned limit window key (prune limit window now (dict_get key d)) d)))
        ]
