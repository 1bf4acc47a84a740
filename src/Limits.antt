-- ===== src/Limits.antt =====
-- chatterbox-server/valkey_util.py: the request limiters, `check_rate_limit` and its fallback
-- `InMemoryRateLimiter`, whose dictionary is a list in insertion order. Times are in any unit.
pub mod Bounds
pub mod Requests
use ziguijia_translate_ml.Common.{
  ℕ, String, Bool, true, false, not, List, [], ◌∷◌, ◌++◌, ◌+◌, ltb, leb, keep, length,
  if◌then◌else◌, str_eq,
}

-- `check_rate_limit`: Valkey is down, its pipeline of INCR and EXPIRE raises, or it answers the
-- counter.
pub data CounterReply : Type 0 where
  server_down : CounterReply
  pipeline_error : CounterReply
  counter : ℕ → CounterReply

unfoldable pub check_rate_limit : CounterReply → (limit : ℕ) → Bool
check_rate_limit server_down limit = true
check_rate_limit pipeline_error limit = true
check_rate_limit (counter n) limit = leb n limit

abbrev pub Store : Type 0
Store = List (String × List ℕ)

-- `d.get(key, [])`
unfoldable pub dict_get : String → Store → List ℕ
dict_get k [] = []
dict_get k ((j, v) ∷ d) = if str_eq j k then v else dict_get k d

-- `d[key] = v`: in its place, or at the end
unfoldable pub dict_set : String → List ℕ → Store → Store
dict_set k v [] = (k, v) ∷ []
dict_set k v ((j, w) ∷ d) =
    let rest = dict_set k v d in if str_eq j k then (j, v) ∷ d else (j, w) ∷ rest

-- `if key in d: del d[key]`
unfoldable pub dict_remove : String → Store → Store
dict_remove k [] = []
dict_remove k ((j, w) ∷ d) = let rest = dict_remove k d in if str_eq j k then d else (j, w) ∷ rest

-- `not v or v[-1] <= now - window`
unfoldable pub is_stale : (window now : ℕ) → List ℕ → Bool
is_stale window now [] = true
is_stale window now (t ∷ []) = leb (t + window) now
is_stale window now (t ∷ u ∷ ts) = is_stale window now (u ∷ ts)

-- The loop that pops the oldest key while there are too many.
unfoldable pub evict : (max_entries : ℕ) → Store → Store
evict max [] = []
evict max (e ∷ d) = let rest = evict max d in if ltb max (length (e ∷ d)) then rest else e ∷ d

-- `_MAX_ENTRIES`
abbrev pub max_entries : ℕ
max_entries = 10000

module _ (limit window : ℕ) where
  unfoldable pub maybe_cleanup : (now : ℕ) → Store → Store
  unfolding evict is_stale
  maybe_cleanup now d =
      if leb (length d) max_entries
      then d
      else evict max_entries (keep (λ e. not (is_stale window now e.1)) d)

  -- `[t for t in timestamps if t > now - window]`
  abbrev pub prune : (now : ℕ) → List ℕ → List ℕ
  prune now ts = keep (λ t. ltb now (t + window)) ts

  -- The store behind the first `if`.
  unfoldable pub store_pruned : String → List ℕ → Store → Store
  unfolding dict_set dict_remove
  store_pruned key [] d = dict_remove key d
  store_pruned key (t ∷ ts) d = dict_set key (t ∷ ts) d

  unfoldable pub check : (now : ℕ) → (key : String) → Store → Bool × Store
  unfolding dict_get store_pruned dict_set maybe_cleanup
  check now key d =
      let pruned = prune now (dict_get key d) in
      let d' = store_pruned key pruned d in
      if leb limit (length pruned)
      then (false, d')
      else (true, maybe_cleanup now (dict_set key (pruned ++ now ∷ []) d'))
