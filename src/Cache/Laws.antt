-- ===== src/Cache/Laws.antt =====
-- What a migration leaves in the cache, and when a segment is not synthesised again.
use mathlib.Core.Path.{ap, subst}
use ziguijia_translate_ml.Common.{
  ℕ, suc, zero, String, ◌≡◌, refl, ◌∙◌, Bool, true, false, Option, none, some, List, [], ◌∷◌, ◌+◌,
  ◌<◌, ◌==◌, str_eq, eq_refl, arith, if◌then◌else◌, Bool-cases, Option-cases, inl, inr,
}
use ziguijia_translate_ml.Cache.{
  SegCache, Wav, Cache, OldMap, at_key, put, pop, pop_old, adopt, adopted, migrated, migrate_from,
  remove_stale, remove_all_stale, after_migration, migrate_cache, move_wav, old_map_from,
}

module _ {A : Type 0} where
  at_key-put :
      (j k : ℕ) (a : A) (d : List (ℕ × A))
      → at_key j (put k a d) ≡ (if k == j then some a else at_key j d)
  unfolding at_key put
  at_key-put j k a [] = refl
  at_key-put j k a ((i, b) ∷ d) = ground (arith, at_key-put j k a d)

  at_key-pop :
      (j k : ℕ) (d : List (ℕ × A)) → at_key j (pop k d) ≡ (if k == j then none else at_key j d)
  unfolding at_key pop
  at_key-pop j k [] = ground arith
  at_key-pop j k ((i, b) ∷ d) = ground (arith, at_key-pop j k d)

-- The entry of an index, if there is one, is for a content.
abbrev pub agrees : Option SegCache → String → Bool
agrees none content = true
agrees (some e) content = str_eq e.content content

module _ (j i : ℕ) (content : String) (c c' : Cache) where
  adopt-other :
      (x : ℕ × ℕ) (o : Option (List (ℕ × Wav)))
      → adopt i content x c.entries o ≡ some c'
      → (i == j) ≡ false
      → at_key j c'.entries ≡ at_key j c.entries
  unfolding adopt
  adopt-other x none e other = absurd (ground arith)
  adopt-other x (some ws) e other =
      ground (arith, at_key-put j i (adopted content x c.entries) c.entries)

  -- A turn leaves the entries of the other indices.
  migrated-other :
      (x : Option (ℕ × ℕ))
      → migrated i content x c ≡ some c'
      → (i == j) ≡ false
      → at_key j c'.entries ≡ at_key j c.entries
  migrated-other none e other = ground (arith, at_key-pop j i c.entries)
  migrated-other (some x) e other = adopt-other x (move_wav x.0 i c.wavs) e other

  adopt-agrees :
      (x : ℕ × ℕ) (o : Option (List (ℕ × Wav)))
      → adopt i content x c.entries o ≡ some c'
      → agrees (at_key i c'.entries) content ≡ true
  unfolding adopt
  adopt-agrees x none e = absurd (ground arith)
  adopt-agrees x (some ws) e =
      ground (arith, at_key-put i i (adopted content x c.entries) c.entries, eq_refl content)

  migrated-agrees :
      (x : Option (ℕ × ℕ))
      → migrated i content x c ≡ some c'
      → agrees (at_key i c'.entries) content ≡ true
  migrated-agrees none e = ground (arith, at_key-pop i i c.entries)
  migrated-agrees (some x) e = adopt-agrees x (move_wav x.0 i c.wavs) e

-- `contents[n]`
abbrev pub nth : ℕ → List String → Option String
nth n [] = none
nth zero (s ∷ ss) = some s
nth (suc n) (s ∷ ss) = nth n ss

module _ (is_blank : String → Bool) where
  -- The turns from an index on leave the entries below it.
  migrate_from-below :
      (i j : ℕ) (contents : List String) (c c' : Cache) (m m' : OldMap)
      → j < i
      → migrate_from is_blank i contents (c, m) ≡ some (c', m')
      → at_key j c'.entries ≡ at_key j c.entries
  unfolding migrate_from
  migrate_from-below i j [] c c' m m' below e = ground arith
  migrate_from-below i j (content ∷ contents) c c' m m' below e =
      elim (Bool-cases (is_blank content)) [
        | inl blank ↦
            migrate_from-below (suc i) j contents c c' m m' (omega (arith, below)) (rw blank at e)
        | inr spoken ↦ elim (Option-cases (migrated i content (pop_old content m).0 c)) [
          | inl raised ↦ absurd (ground (arith, rw (spoken, raised) at e))
          | inr (c₁, turned) ↦
              migrate_from-below (suc i) j contents c₁ c' (pop_old content m).1 m'
                (omega (arith, below)) (rw (spoken, turned) at e)
              ∙ migrated-other j i content c c₁ (pop_old content m).0 turned (ground (arith, below))
        ]
      ]

  -- The entry of a segment, when the turns from its index on are over.
  migrate_from-agrees :
      (i n : ℕ) (contents : List String) (content : String) (c c' : Cache) (m m' : OldMap)
      → migrate_from is_blank i contents (c, m) ≡ some (c', m')
      → nth n contents ≡ some content
      → is_blank content ≡ false
      → agrees (at_key (i + n) c'.entries) content ≡ true
  unfolding migrate_from
  migrate_from-agrees i n [] content c c' m m' e here spoken = absurd (ground arith)
  migrate_from-agrees i zero (s ∷ ss) content c c' m m' e here spoken =
      elim (Option-cases (migrated i s (pop_old s m).0 c)) [
        | inl raised ↦ absurd (ground (arith, rw (said, raised) at e))
        | inr (c₁, turned) ↦ ground (
          arith,
          migrate_from-below (suc i) i ss c₁ c' (pop_old s m).1 m' (omega arith)
              (rw (said, turned) at e),
          migrated-agrees i i s c c₁ (pop_old s m).0 turned,
        )
      ]
    where
      said : is_blank s ≡ false
      said = ground (arith, spoken, ap is_blank)
  migrate_from-agrees i (suc n) (s ∷ ss) content c c' m m' e here spoken =
      elim (Bool-cases (is_blank s)) [
        | inl blank ↦
            shifted (migrate_from-agrees (suc i) n ss content c c' m m' (rw blank at e) here spoken)
        | inr said ↦ elim (Option-cases (migrated i s (pop_old s m).0 c)) [
          | inl raised ↦ absurd (ground (arith, rw (said, raised) at e))
          | inr (c₁, turned) ↦ shifted (
              migrate_from-agrees (suc i) n ss content c₁ c' (pop_old s m).1 m'
                (rw (said, turned) at e) here spoken)
        ]
      ]
    where
      shifted :
          agrees (at_key (suc i + n) c'.entries) content ≡ true
          → agrees (at_key (i + suc n) c'.entries) content ≡ true
      shifted h =
          let same : suc i + n ≡ i + suc n = omega arith in
          subst (λ k. agrees (at_key k c'.entries) content ≡ true) same h

  remove_stale-agrees :
      (j : ℕ) (content : String) (xs : List (ℕ × ℕ)) (c : Cache)
      → agrees (at_key j c.entries) content ≡ true
      → agrees (at_key j (remove_stale is_blank xs c).entries) content ≡ true
  unfolding remove_stale
  remove_stale-agrees j content [] c h = h
  remove_stale-agrees j content ((old, dur) ∷ xs) c h =
      remove_stale-agrees j content xs _ (ground (arith, at_key-pop j old c.entries))

  remove_all_stale-agrees :
      (j : ℕ) (content : String) (m : OldMap) (c : Cache)
      → agrees (at_key j c.entries) content ≡ true
      → agrees (at_key j (remove_all_stale is_blank m c).entries) content ≡ true
  unfolding remove_all_stale
  remove_all_stale-agrees j content [] c h = h
  remove_all_stale-agrees j content ((s, xs) ∷ m) c h =
      remove_all_stale-agrees j content m (remove_stale is_blank xs c)
        (remove_stale-agrees j content xs c h)

  after_migration-agrees :
      (contents : List String) (c c' : Cache) (m : OldMap) (n : ℕ) (content : String)
      → after_migration is_blank (migrate_from is_blank 0 contents (c, m)) ≡ some c'
      → nth n contents ≡ some content
      → is_blank content ≡ false
      → agrees (at_key n c'.entries) content ≡ true
  after_migration-agrees contents c c' m n content e here spoken =
      elim (Option-cases (migrate_from is_blank 0 contents (c, m))) [
        | inl raised ↦ absurd (ground (arith, rw raised at e))
        | inr ((c₁, m₁), turned) ↦ ground (
          arith,
          rw turned at e,
          remove_all_stale-agrees n content m₁ c₁,
          migrate_from-agrees 0 n contents content c c₁ m m₁ turned here spoken,
          zero_add n,
        )
      ]
    where
      zero_add : (k : ℕ) → 0 + k ≡ k
      zero_add k = omega arith

  -- When a migration returns, the entry that it leaves at the index of a new segment, if any, is for
  -- the text of that segment, wherever that text stood before. The segment is not blank.
  pub migrate_cache-agrees :
      (contents : List String) (c c' : Cache) (n : ℕ) (content : String)
      → migrate_cache is_blank contents c ≡ some c'
      → nth n contents ≡ some content
      → is_blank content ≡ false
      → agrees (at_key n c'.entries) content ≡ true
  unfolding migrate_cache at_key
  migrate_cache-agrees contents c c' n content e here spoken = on_entries c.entries refl e
    where
      on_entries :
          (es : List (ℕ × SegCache))
          → c.entries ≡ es
          → (elim es [
            | [] ↦ some c
            | x ∷ xs ↦
                after_migration is_blank
                  (migrate_from is_blank 0 contents (c, old_map_from (x ∷ xs) []))
          ])
            ≡ some c'
          → agrees (at_key n c'.entries) content ≡ true
      on_entries [] none_cached e' = ground (arith, none_cached)
      on_entries (x ∷ xs) cached e' =
          after_migration-agrees contents c c' (old_map_from (x ∷ xs) []) n content e' here spoken
