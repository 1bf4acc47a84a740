-- ===== src/Cache.antt =====
-- gen_audio/gen_audio.py: the cache of synthesised segments, `cache_meta.json` and the WAV files beside
-- it. Both are lists with the segment's index as key. What a WAV file says is part of the model; its
-- duration and whether it is silent are what reading it answers. Texts are those behind
-- `extract_speaker`, and whether one is blank is an argument.
pub mod Laws
use ziguijia_translate_ml.Common.{
  ℕ, suc, String, Bool, false, not, Option, none, some, List, [], ◌∷◌, ◌++◌, ◌&&◌, ◌||◌, ◌==◌,
  is_some, str_eq, if◌then◌else◌,
}

pub record SegCache : Type 0 where
  pub content : String
  pub duration : ℕ
  pub fallback : Bool

pub record Wav : Type 0 where
  pub spoken : String
  pub seconds : ℕ
  pub is_silent : Bool
  pub is_readable : Bool

pub record Cache : Type 0 where
  pub entries : List (ℕ × SegCache)
  pub wavs : List (ℕ × Wav)

module _ {A : Type 0} where
  -- `d.get(k)`, or what stands at a path
  unfoldable pub at_key : ℕ → List (ℕ × A) → Option A
  at_key k [] = none
  at_key k ((j, a) ∷ d) = if j == k then some a else at_key k d

  -- `d[k] = a`
  unfoldable pub put : ℕ → A → List (ℕ × A) → List (ℕ × A)
  put k a [] = (k, a) ∷ []
  put k a ((j, b) ∷ d) = let rest = put k a d in if j == k then (j, a) ∷ d else (j, b) ∷ rest

  -- `d.pop(k, None)`: keys are unique
  unfoldable pub pop : ℕ → List (ℕ × A) → List (ℕ × A)
  pop k [] = []
  pop k ((j, a) ∷ d) = let rest = pop k d in if j == k then rest else (j, a) ∷ rest

-- `_check_cache`: the duration on a hit. A file without an entry is taken as it is.
unfoldable pub recover : (seg_idx : ℕ) → (clean_content : String) → Wav → Cache → Option ℕ × Cache
unfolding put
recover i clean_content wav c = if not wav.is_readable || wav.is_silent then (none, c) else (
  some wav.seconds,
  record c {
    entries =
        put i (record { content = clean_content; duration = wav.seconds; fallback = false })
          c.entries;
  },
)

unfoldable pub check_cache : (seg_idx : ℕ) → (clean_content : String) → Cache → Option ℕ × Cache
unfolding at_key recover
check_cache i clean_content c = elim (at_key i c.wavs) [
  | none ↦ (none, c)
  | some wav ↦ elim (at_key i c.entries) [
    | none ↦ recover i clean_content wav c
    | some seg_cache ↦
        if not seg_cache.fallback && (str_eq seg_cache.content clean_content && not wav.is_silent)
        then (some seg_cache.duration, c)
        else (none, c)
  ]
]

-- `old_map`: the indices and durations of a content, first in, first out
abbrev pub OldMap : Type 0
OldMap = List (String × List (ℕ × ℕ))

-- `old_map.setdefault(content, []).append(x)`
unfoldable pub add_old : String → ℕ × ℕ → OldMap → OldMap
add_old s x [] = (s, x ∷ []) ∷ []
add_old s x ((t, xs) ∷ m) =
    let rest = add_old s x m in if str_eq t s then (t, xs ++ x ∷ []) ∷ m else (t, xs) ∷ rest

unfoldable pub old_map_from : List (ℕ × SegCache) → OldMap → OldMap
unfolding add_old
old_map_from [] m = m
old_map_from ((i, e) ∷ es) m =
    old_map_from es (if str_eq e.content "" then m else add_old e.content (i, e.duration) m)

-- `old_map.get(content)`, with `entries.pop(0)` and the `del` of an empty list
unfoldable pub pop_old : String → OldMap → Option (ℕ × ℕ) × OldMap
pop_old s [] = (none, [])
pop_old s ((t, []) ∷ m) =
    let (o, rest) = pop_old s m in if str_eq t s then (none, (t, []) ∷ m) else (o, (t, []) ∷ rest)
pop_old s ((t, x ∷ []) ∷ m) =
    let (o, rest) = pop_old s m in if str_eq t s then (some x, m) else (o, (t, x ∷ []) ∷ rest)
pop_old s ((t, x ∷ y ∷ xs) ∷ m) =
    let (o, rest) = pop_old s m in
    if str_eq t s then (some x, (t, y ∷ xs) ∷ m) else (o, (t, x ∷ y ∷ xs) ∷ rest)

-- `os.rename` and `os.remove`; the latter raises FileNotFoundError on a missing file.
unfoldable pub remove_wav : ℕ → List (ℕ × Wav) → Option (List (ℕ × Wav))
unfolding at_key pop
remove_wav i ws = if is_some (at_key i ws) then some (pop i ws) else none

unfoldable pub move_wav : (old_idx i : ℕ) → List (ℕ × Wav) → Option (List (ℕ × Wav))
unfolding at_key put pop remove_wav
move_wav old i ws = if old == i then some ws else elim (at_key i ws) [
  | some new_wav ↦ remove_wav old ws
  | none ↦ elim (at_key old ws) [
    | some old_wav ↦ some (put i old_wav (pop old ws))
    | none ↦ some ws
  ]
]

abbrev pub fallback_of : Option SegCache → Bool
fallback_of none = false
fallback_of (some e) = e.fallback

abbrev pub adopted : String → ℕ × ℕ → List (ℕ × SegCache) → SegCache
adopted content (old, dur) entries = record {
  content = content;
  duration = dur;
  fallback = fallback_of (at_key old entries);
}

-- The entry of a segment whose content was found at `old_idx`.
unfoldable pub adopt :
    (i : ℕ) → String → ℕ × ℕ → List (ℕ × SegCache) → Option (List (ℕ × Wav)) → Option Cache
unfolding at_key put
adopt i content x entries none = none
adopt i content x entries (some ws) =
    some (record { entries = put i (adopted content x entries) entries; wavs = ws })

-- One turn of the loop over the new segments; none is the exception.
abbrev pub migrated : (i : ℕ) → String → Option (ℕ × ℕ) → Cache → Option Cache
migrated i content (some x) c = adopt i content x c.entries (move_wav x.0 i c.wavs)
migrated i content none c = some (record { entries = pop i c.entries; wavs = pop i c.wavs })

module _ (is_blank : String → Bool) where
  unfoldable pub migrate_from : (i : ℕ) → List String → Cache × OldMap → Option (Cache × OldMap)
  unfolding pop_old move_wav adopt pop
  migrate_from i [] s = some s
  migrate_from i (content ∷ contents) (c, m) =
      let (x, m') = pop_old content m in
      let rest : Option (Cache × OldMap) = elim (migrated i content x c) [
        | none ↦ none
        | some c' ↦ migrate_from (suc i) contents (c', m')
      ] in
      let skipped = migrate_from (suc i) contents (c, m) in
      if is_blank content then skipped else rest

  -- The entries of the contents that no new segment has.
  unfoldable pub remove_stale : List (ℕ × ℕ) → Cache → Cache
  unfolding at_key pop
  remove_stale [] c = c
  remove_stale ((old, dur) ∷ xs) c = remove_stale xs (
      if is_some (at_key old c.entries)
      then record { entries = pop old c.entries; wavs = pop old c.wavs }
      else c)

  unfoldable pub remove_all_stale : OldMap → Cache → Cache
  unfolding remove_stale
  remove_all_stale [] c = c
  remove_all_stale ((s, xs) ∷ m) c = remove_all_stale m (remove_stale xs c)

  abbrev pub after_migration : Option (Cache × OldMap) → Option Cache
  after_migration none = none
  after_migration (some (c, m)) = some (remove_all_stale m c)

  -- `_migrate_cache`
  unfoldable pub migrate_cache : List String → Cache → Option Cache
  unfolding migrate_from remove_all_stale old_map_from
  migrate_cache contents c = elim c.entries [
    | [] ↦ some c
    | e ∷ es ↦ after_migration (migrate_from 0 contents (c, old_map_from (e ∷ es) []))
  ]
