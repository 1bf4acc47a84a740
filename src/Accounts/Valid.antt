-- ===== src/Accounts/Valid.antt =====
-- The table of the accounts that the requests keep.
use ziguijia_translate_ml.Common.{
  ℕ, suc, String, ◌≡◌, refl, Bool, true, false, none, List, [], ◌∷◌, ◌++◌, ◌+◌, ◌≤◌, str_eq, eq_iff,
  arith, Bool-cases, Option-cases, inl, inr,
}
use ziguijia_translate_ml.Sql.{select, update_key}
use ziguijia_translate_ml.Sql.Keys.{IsKeyed, update_key-IsKeyed}
use ziguijia_translate_ml.Accounts.{
  User, UserManager, Mail, send_mail, update, is_code, is_short, new_user, set_password,
  set_new_password, set_verified, set_code, set_reset, register, change_password, may_reset,
  reset_password, verify, resend_code, request_reset,
}
use ziguijia_translate_ml.Accounts.Requests.{
  AccountRequest, registering, verifying, changing, resending, forgetting, resetting, apply_request,
  select-append,
}

select-append-IsKeyed {ℓ} :
    {R : Type ℓ} (k : String) (r : R) (t : List (String × R))
    → select k t ≡ none
    → IsKeyed t
    → IsKeyed (t ++ (k, r) ∷ [])
unfolding select
select-append-IsKeyed k r [] fresh h = (refl, tt)
select-append-IsKeyed k r ((j, s) ∷ t) fresh h = (
  ground (arith, select-append j r k t, eq_iff j k, eq_iff k j, h.0),
  select-append-IsKeyed k r t (ground arith) h.1,
)

-- The ids of the rows go up, from `low` on and below `high`.
abbrev pub IsAscending : (low high : ℕ) → List (String × User) → Type 0
IsAscending low high [] = low ≤ high
IsAscending low high (e ∷ t) = (low ≤ e.1.id) × IsAscending (suc e.1.id) high t

-- Emails are unique, and so are ids, which are handed out in order.
pub record IsValid (m : UserManager) : Type 0 where
  pub keyed : IsKeyed m.users
  pub ascending : IsAscending 0 m.next_id m.users

IsAscending-append :
    (low : ℕ) (t : List (String × User)) (email : String) (u : User)
    → IsAscending low u.id t
    → IsAscending low (suc u.id) (t ++ (email, u) ∷ [])
IsAscending-append low [] email u h = (h, omega arith)
IsAscending-append low (e ∷ t) email u h = (h.0, IsAscending-append (suc e.1.id) t email u h.1)

update_key-IsAscending :
    (low high : ℕ) (k : String) (f : User → User) (t : List (String × User))
    → ((u : User) → (f u).id ≡ u.id)
    → IsAscending low high t
    → IsAscending low high (update_key k (λ u. true) f t)
unfolding update_key
update_key-IsAscending low high k f [] keeps h = h
update_key-IsAscending low high k f ((j, u) ∷ t) keeps h = elim (Bool-cases (str_eq j k)) [
  | inl same ↦ rw (same, keeps u) (h.0, update_key-IsAscending _ high k f t keeps h.1)
  | inr other ↦ rw other (h.0, update_key-IsAscending _ high k f t keeps h.1)
]

update-IsValid :
    (email : String) (f : User → User) (m : UserManager)
    → ((u : User) → (f u).id ≡ u.id)
    → IsValid m
    → IsValid (update email f m)
unfolding update
update-IsValid email f m keeps v = record {
  keyed = update_key-IsKeyed email (λ u. true) f m.users v.keyed;
  ascending = update_key-IsAscending 0 m.next_id email f m.users keeps v.ascending;
}

send_mail-IsValid :
    (sent : Bool) (mail : Mail) (m : UserManager) → IsValid m → IsValid (send_mail sent mail m)
unfolding send_mail
send_mail-IsValid true mail m v = record { keyed = v.keyed; ascending = v.ascending }
send_mail-IsValid false mail m v = v

module _ (generate_hash : (salt password : String) → String)
    (check_hash : (hash password : String) → Bool) where
  register-IsValid :
      (sent : Bool) (salt code email password : String) (m : UserManager)
      → IsValid m
      → IsValid (register generate_hash check_hash sent salt code email password m).1
  unfolding register new_user
  register-IsValid sent salt code email password m v = elim (Option-cases (select email m.users)) [
    | inl fresh ↦
        rw (fresh, register)
          (send_mail-IsValid sent _ _ (record {
            keyed = select-append-IsKeyed email _ m.users fresh v.keyed;
            ascending =
                IsAscending-append 0 m.users email
                  (new_user generate_hash check_hash m.next_id salt password code) v.ascending;
          }))
    | inr (u, found) ↦ rw (found, register) v
  ]

  verify-IsValid :
      (email code : String) (m : UserManager) → IsValid m → IsValid (verify email code m).1
  unfolding verify
  verify-IsValid email code m v = elim (Option-cases (select email m.users)) [
    | inl missing ↦ rw (missing, verify) v
    | inr (u, found) ↦
        rw (found, verify)
          (elim (Bool-cases u.verified) [
            | inl verified ↦ rw verified v
            | inr unverified ↦ rw unverified (elim (Bool-cases (is_code u.verification_code code)) [
              | inl right ↦ rw right (update-IsValid email set_verified m (λ u'. refl) v)
              | inr wrong ↦ rw wrong v
            ])
          ])
  ]

  change_password-IsValid :
      (salt email old_password new_password : String) (m : UserManager)
      → IsValid m
      → IsValid (change_password generate_hash check_hash salt email old_password new_password m).1
  unfolding change_password
  change_password-IsValid salt email old_password new_password m v =
      elim (Option-cases (select email m.users)) [
        | inl missing ↦ rw (missing, change_password) v
        | inr (u, found) ↦
            rw (found, change_password)
              (elim (Bool-cases (check_hash u.password_hash old_password)) [
                | inr wrong ↦ rw wrong v
                | inl right ↦ rw right (elim (Bool-cases (is_short new_password)) [
                  | inl short ↦ rw short v
                  | inr long ↦ rw long (
                      update-IsValid email (set_password (generate_hash salt new_password)) m
                        (λ u'. refl) v)
                ])
              ])
      ]

  resend_code-IsValid :
      (sent : Bool) (code email : String) (m : UserManager)
      → IsValid m
      → IsValid (resend_code sent code email m).1
  unfolding resend_code
  resend_code-IsValid sent code email m v = elim (Option-cases (select email m.users)) [
    | inl missing ↦ rw (missing, resend_code) v
    | inr (u, found) ↦
        rw (found, resend_code)
          (elim (Bool-cases u.verified) [
            | inl verified ↦ rw verified v
            | inr unverified ↦
                rw unverified (
                  send_mail-IsValid sent _ _
                    (update-IsValid email (set_code code) m (λ u'. refl) v))
          ])
  ]

  request_reset-IsValid :
      (sent : Bool) (now : ℕ) (code email : String) (m : UserManager)
      → IsValid m
      → IsValid (request_reset sent now code email m).1
  unfolding request_reset
  request_reset-IsValid sent now code email m v = elim (Option-cases (select email m.users)) [
    | inl missing ↦ rw (missing, request_reset) v
    | inr (u, found) ↦
        rw (found, request_reset)
          (send_mail-IsValid sent _ _
            (update-IsValid email (set_reset code (now + 1800)) m (λ u'. refl) v))
  ]

  reset_password-IsValid :
      (now : ℕ) (salt email code new_password : String) (m : UserManager)
      → IsValid m
      → IsValid (reset_password generate_hash check_hash now salt email code new_password m).1
  unfolding reset_password
  reset_password-IsValid now salt email code new_password m v =
      elim (Option-cases (select email m.users)) [
        | inl missing ↦ rw (missing, reset_password) v
        | inr (u, found) ↦
            rw (found, reset_password)
              (elim (Bool-cases (may_reset u now code new_password)) [
                | inr refused ↦ rw refused v
                | inl granted ↦ rw granted (
                    update-IsValid email (set_new_password (generate_hash salt new_password)) m
                      (λ u'. refl) v)
              ])
      ]

  -- Every request keeps the table: no two accounts with one email, nor with one id, and the next id
  -- is above all that were handed out.
  pub apply_request-IsValid :
      (r : AccountRequest) (m : UserManager)
      → IsValid m
      → IsValid (apply_request generate_hash check_hash r m).1
  unfolding apply_request
  apply_request-IsValid (registering sent salt code email password) m v =
      register-IsValid sent salt code email password m v
  apply_request-IsValid (verifying email code) m v = verify-IsValid email code m v
  apply_request-IsValid (changing salt email old_password new_password) m v =
      change_password-IsValid salt email old_password new_password m v
  apply_request-IsValid (resending sent code email) m v = resend_code-IsValid sent code email m v
  apply_request-IsValid (forgetting sent now code email) m v =
      request_reset-IsValid sent now code email m v
  apply_request-IsValid (resetting now salt email code new_password) m v =
      reset_password-IsValid now salt email code new_password m v
