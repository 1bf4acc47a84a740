-- ===== src/Checkpoint/Edited.antt =====
-- chatterbox-server/job_checkpoint.py: the names of the SRT files that a user edited, a column with
-- commas.
use Prim.Native.String.{compare}
use Prim.Native.Nat.{Ordering}
use ziguijia_translate_ml.Common.{
  String, ◌≡◌, ◌∙◌, refl, ap, Bool, true, false, Option, none, some, List, [], ◌∷◌, ◌||◌, arith,
  All, elem, str_eq, eq_iff, eq_refl, if◌then◌else◌, IsPiece, split_nonempty, join_commas,
  split_nonempty-join_commas, split_nonempty-IsPiece, Bool-cases, inl, inr,
}
use ziguijia_translate_ml.Sql.{select, update_key}
use ziguijia_translate_ml.Sql.Laws.{select-update_key}
use ziguijia_translate_ml.Job.{Row}
use ziguijia_translate_ml.Queue.{JobQueue}

abbrev is_before : String → String → Bool
is_before s t = elim (compare s t) [ Ordering.lt ↦ true | _ ↦ false ]

-- `files.add(name)`, on a set that is kept in its sorted order
unfoldable pub add_file : String → List String → List String
add_file name [] = name ∷ []
add_file name (f ∷ files) =
    let rest = add_file name files in
    if str_eq name f then f ∷ files else (if is_before name f then name ∷ f ∷ files else f ∷ rest)

-- `sorted(set(files))`
unfoldable pub sorted_set : List String → List String
unfolding add_file
sorted_set [] = []
sorted_set (f ∷ files) = add_file f (sorted_set files)

abbrev files_of : Option String → List String
files_of none = []
files_of (some s) = split_nonempty s

unfoldable pub get_edited_srt_files : (access_code : String) → JobQueue → List String
unfolding split_nonempty
get_edited_srt_files code q = elim (select code q.jobs) [
  | none ↦ []
  | some r ↦ files_of r.edited_srt_files
]

unfoldable pub write_edited : (access_code column : String) → JobQueue → JobQueue
write_edited code column q = record q {
  jobs = update_key code (λ _. true) (λ r. record r { edited_srt_files = some column }) q.jobs;
}

unfoldable pub set_edited_srt_file : (access_code filename : String) → JobQueue → JobQueue
unfolding get_edited_srt_files sorted_set join_commas write_edited
set_edited_srt_file code filename q =
    write_edited code (join_commas (add_file filename (sorted_set (get_edited_srt_files code q)))) q

unfoldable pub clear_edited_srt_files : (access_code : String) → JobQueue → JobQueue
unfolding write_edited
clear_edited_srt_files code q = write_edited code "" q

elem-add_file :
    (s name : String) (files : List String)
    → elem s (add_file name files) ≡ (str_eq s name || elem s files)
unfolding add_file
elem-add_file s name [] = refl
elem-add_file s name (f ∷ files) = ground (arith, eq_iff name f, elem-add_file s name files)

elem-sorted_set : (s : String) (files : List String) → elem s (sorted_set files) ≡ elem s files
unfolding sorted_set
elem-sorted_set s [] = refl
elem-sorted_set s (f ∷ files) =
    ground (arith, elem-add_file s f (sorted_set files), elem-sorted_set s files)

All-add_file :
    (name : String) (files : List String)
    → IsPiece name
    → All IsPiece files
    → All IsPiece (add_file name files)
unfolding add_file
All-add_file name [] p h = (p, tt)
All-add_file name (f ∷ files) p h = elim (Bool-cases (str_eq name f)) [
  | inl same ↦ rw same h
  | inr other ↦ rw other (elim (Bool-cases (is_before name f)) [
    | inl before ↦ rw before (p, h)
    | inr after ↦ rw after (h.0, All-add_file name files p h.1)
  ])
]

All-sorted_set : (files : List String) → All IsPiece files → All IsPiece (sorted_set files)
unfolding sorted_set
All-sorted_set [] h = tt
All-sorted_set (f ∷ files) h = All-add_file f (sorted_set files) h.0 (All-sorted_set files h.1)

-- What is read after the column is written.
get-write_edited :
    (code column : String) (q : JobQueue) (r : Row)
    → select code q.jobs ≡ some r
    → get_edited_srt_files code (write_edited code column q) ≡ split_nonempty column
unfolding get_edited_srt_files write_edited
get-write_edited code column q r found = ground (
  arith,
  eq_refl code,
  select-update_key code code (λ _. true) (λ r. record r { edited_srt_files = some column }) q.jobs,
)

edited_IsPiece : (code : String) (q : JobQueue) → All IsPiece (get_edited_srt_files code q)
unfolding get_edited_srt_files
edited_IsPiece code q = of_row (select code q.jobs)
  where
    of_row :
        (o : Option Row) → All IsPiece (elim o [ none ↦ [] | some r ↦ files_of r.edited_srt_files ])
    of_row none = tt
    of_row (some r) = of_column r.edited_srt_files
      where
        of_column : (c : Option String) → All IsPiece (files_of c)
        of_column none = tt
        of_column (some s) = split_nonempty-IsPiece s

-- Of a job that is in the table: after a file was recorded as edited, the files that are read back are
-- that one and those before, and after they were cleared, none. The name has no comma and is not
-- empty.
pub elem-set_edited_srt_file :
    (code filename : String) (q : JobQueue) (r : Row) (s : String)
    → IsPiece filename
    → select code q.jobs ≡ some r
    → (elem s (get_edited_srt_files code (set_edited_srt_file code filename q))
        ≡ (str_eq s filename || elem s (get_edited_srt_files code q)))
      × (get_edited_srt_files code (clear_edited_srt_files code q) ≡ [])
unfolding set_edited_srt_file clear_edited_srt_files
elem-set_edited_srt_file code filename q r s piece found =
    let files = add_file filename (sorted_set (get_edited_srt_files code q)) in
    let read =
      get-write_edited code (join_commas files) q r found
      ∙ split_nonempty-join_commas files (
          All-add_file filename (sorted_set (get_edited_srt_files code q)) piece
            (All-sorted_set (get_edited_srt_files code q) (edited_IsPiece code q))) in
    (
      ap (elem s) read
          ∙ elem-add_file s filename (sorted_set (get_edited_srt_files code q))
          ∙ ap (str_eq s filename ||◌) (elem-sorted_set s (get_edited_srt_files code q)),
      get-write_edited code "" q r found,
    )
