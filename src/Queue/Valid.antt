-- ===== src/Queue/Valid.antt =====
-- The invariant of the job queue while the server runs: access codes are unique in the table, and
-- every pending job stands in the in-memory queue.
pub mod Requests
pub mod Taken
pub mod Turns
pub mod Serve
pub mod Startup
pub mod Reachable
use mathlib.Core.Option
use mathlib.Core.Path.{subst}
use ziguijia_translate_ml.Common.{
  String, ◌≡◌, sym, ap, Bool, true, false, some, List, ◌⊎◌, arith, if◌then◌else◌, str_eq, eq_iff,
  elem, Bool-cases, inl, inr,
}
use ziguijia_translate_ml.Sql.{select, update_key}
use ziguijia_translate_ml.Sql.Laws.{select-update_key, update_key_inv}
use ziguijia_translate_ml.Sql.Keys.{IsKeyed, update_key-IsKeyed}
use ziguijia_translate_ml.Job.{pending, Row}
use ziguijia_translate_ml.Queue.{JobQueue}

-- Every pending job stands in the list.
abbrev pub AllQueued : List String → List (String × Row) → Type 0
AllQueued memory jobs =
    (j : String) (r : Row) → select j jobs ≡ some r → r.status ≡ pending → elem j memory ≡ true

pub record IsValid (q : JobQueue) : Type 0 where
  pub keyed : IsKeyed q.jobs
  pub queued : AllQueued q.memory q.jobs

-- The table and the in-memory queue are all that the invariant speaks of.
pub IsValid-same :
    {q q' : JobQueue} → q'.jobs ≡ q.jobs → q'.memory ≡ q.memory → IsValid q → IsValid q'
IsValid-same {q} {q'} ej em v = record { keyed = rw ej v.keyed; queued = rw ej (rw em v.queued) }

module _ (k : String) (p : Row → Bool) (f : Row → Row) (t : List (String × Row))
    (memory memory' : List String) (queued : AllQueued memory t)
    (grows : (j : String) → elem j memory ≡ true → elem j memory' ≡ true)
    (revives : (r : Row)
      → (f r).status ≡ pending
      → (r.status ≡ pending) ⊎ (elem k memory' ≡ true)) where
  revived :
      (b : Bool) (s r : Row)
      → select k t ≡ some s
      → (if b then f s else s) ≡ r
      → r.status ≡ pending
      → elem k memory' ≡ true
  revived true s r at e w = elim (revives s (rw (ap (λ (x : Row). x.status) e) w)) [
    | inl was ↦ grows k (queued k s at was)
    | inr now ↦ now
  ]
  revived false s r at e w = grows k (queued k s at (rw (ap (λ (x : Row). x.status) e) w))

  revived_key :
      (r : Row)
      → select k (update_key k p f t) ≡ some r
      → r.status ≡ pending
      → elem k memory' ≡ true
  revived_key r h w = let (s, at, e) = update_key_inv k p f t r h in revived (p s) s r at e w

  -- An UPDATE of one job that makes it pending only if its code is queued keeps all queued.
  pub update_key-AllQueued : AllQueued memory' (update_key k p f t)
  update_key-AllQueued j r found w = elim (Bool-cases (str_eq k j)) [
    | inl same ↦
        let e : k ≡ j = (eq_iff k j).0 same in
        subst (λ x. elem x memory' ≡ true) e
          (revived_key r (subst (λ x. select x (update_key k p f t) ≡ some r) (sym e) found) w)
    | inr other ↦ grows j (queued j r (rw (select-update_key k j p f t, other) at found) w)
  ]

-- An UPDATE of one job that makes it pending only if its code is queued keeps the invariant.
pub IsValid-update :
    {q q' : JobQueue} (k : String) (p : Row → Bool) (f : Row → Row)
    → q'.jobs ≡ update_key k p f q.jobs
    → ((j : String) → elem j q.memory ≡ true → elem j q'.memory ≡ true)
    → ((r : Row) → (f r).status ≡ pending → (r.status ≡ pending) ⊎ (elem k q'.memory ≡ true))
    → IsValid q
    → IsValid q'
IsValid-update {q} {q'} k p f e grows revives v = record {
  keyed = rw e (update_key-IsKeyed k p f q.jobs v.keyed);
  queued = rw e (update_key-AllQueued k p f q.jobs q.memory q'.memory v.queued grows revives);
}
