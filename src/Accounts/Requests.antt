-- ===== src/Accounts/Requests.antt =====
-- The requests to the accounts, and what they leave alone.
use Prim.Native.String.{len}
use ziguijia_translate_ml.Common.{
  ℕ, String, ◌≡◌, refl, Bool, true, false, Option, none, some, List, [], ◌∷◌, ◌++◌, ◌+◌,
  if◌then◌else◌, str_eq, arith, ◌≢◌, ◌≤◌, ◌⊎◌, ◌∙◌, ap, inl, inr, not, ◌&&◌, eq_iff, Bool-cases,
}
use ziguijia_translate_ml.Sql.{select}
use ziguijia_translate_ml.Sql.Laws.{select-update_key}
use ziguijia_translate_ml.Accounts.{
  User, UserManager, Mail, Answer, send_mail, update, new_user, set_password, set_new_password,
  set_verified, set_code, set_reset, register, change_password, may_reset, is_expired,
  is_reset_code, is_short, reset_password, verify, resend_code, request_reset,
}

pub data AccountRequest : Type 0 where
  registering : (sent : Bool) (salt code email password : String) → AccountRequest
  verifying : (email code : String) → AccountRequest
  changing : (salt email old_password new_password : String) → AccountRequest
  resending : (sent : Bool) (code email : String) → AccountRequest
  forgetting : (sent : Bool) (now : ℕ) (code email : String) → AccountRequest
  resetting : (now : ℕ) (salt email code new_password : String) → AccountRequest

abbrev pub email_of : AccountRequest → String
email_of (registering sent salt code email password) = email
email_of (verifying email code) = email
email_of (changing salt email old_password new_password) = email
email_of (resending sent code email) = email
email_of (forgetting sent now code email) = email
email_of (resetting now salt email code new_password) = email

pub users-send_mail :
    (sent : Bool) (mail : Mail) (m : UserManager) → (send_mail sent mail m).users ≡ m.users
unfolding send_mail
users-send_mail true mail m = refl
users-send_mail false mail m = refl

pub select-append {ℓ} :
    {R : Type ℓ} (k : String) (r : R) (j : String) (t : List (String × R))
    → select k (t ++ (j, r) ∷ [])
      ≡ elim (select k t) [ some s ↦ some s | none ↦ if str_eq j k then some r else none ]
unfolding select
select-append k r j [] = refl
select-append k r j ((i, s) ∷ t) = ground (arith, select-append k r j t)

-- What an UPDATE of one account does to the rows that a SELECT sees.
pub select-update :
    (e email : String) (f : User → User) (m : UserManager)
    → select e (update email f m).users
      ≡ elim (select e m.users) [ none ↦ none | some u ↦ some (if str_eq email e then f u else u) ]
unfolding update
select-update e email f m = ground (arith, select-update_key email e (λ u. true) f m.users)

-- The stored hash of an account, if it is there.
abbrev pub hash_of : Option User → Option String
hash_of none = none
hash_of (some u) = some u.password_hash

module _ (generate_hash : (salt password : String) → String)
    (check_hash : (hash password : String) → Bool) where
  -- The requests that write the table.
  unfoldable pub apply_request : AccountRequest → UserManager → Answer × UserManager
  apply_request (registering sent salt code email password) =
      register generate_hash check_hash sent salt code email password
  apply_request (verifying email code) = verify email code
  apply_request (changing salt email old_password new_password) =
      change_password generate_hash check_hash salt email old_password new_password
  apply_request (resending sent code email) = resend_code sent code email
  apply_request (forgetting sent now code email) = request_reset sent now code email
  apply_request (resetting now salt email code new_password) =
      reset_password generate_hash check_hash now salt email code new_password

  -- A request for one email leaves every other account as it is.
  pub select-apply_request :
      (r : AccountRequest) (e : String) (m : UserManager)
      → str_eq (email_of r) e ≡ false
      → select e (apply_request r m).1.users ≡ select e m.users
  unfolding apply_request register verify change_password resend_code request_reset reset_password
  select-apply_request (registering sent salt code email password) e m other = ground (
    arith,
    users-send_mail sent,
    select-append e (new_user generate_hash check_hash m.next_id salt password code) email m.users,
  )
  select-apply_request (verifying email code) e m other =
      ground (arith, select-update e email set_verified m)
  select-apply_request (changing salt email old_password new_password) e m other =
      ground (arith, select-update e email (set_password (generate_hash salt new_password)) m)
  select-apply_request (resending sent code email) e m other =
      ground (arith, users-send_mail sent, select-update e email (set_code code) m)
  select-apply_request (forgetting sent now code email) e m other =
      ground (arith, users-send_mail sent, select-update e email (set_reset code (now + 1800)) m)
  select-apply_request (resetting now salt email code new_password) e m other =
      ground (arith, select-update e email (set_new_password (generate_hash salt new_password)) m)

  -- What lets a request change the password of an account: the old one, or the account's reset code,
  -- which is not empty, up to its time and for a new password of six characters at least.
  abbrev pub Authorised : AccountRequest → User → Type 0
  Authorised (changing salt email old_password new_password) u =
      check_hash u.password_hash old_password ≡ true
  Authorised (resetting now salt email code new_password) u =
      (expires : ℕ) × (u.reset_code_expires ≡ some expires)
      × (now ≤ expires)
      × (u.reset_code ≡ some code)
      × (code ≢ "")
      × (6 ≤ len new_password)
  Authorised _ u = ⊥

  may_reset-Authorised :
      (stored : Option String) (expires : Option ℕ) (now : ℕ) (code new_password : String)
      → (not (is_expired expires now) && (is_reset_code stored code && not (is_short new_password)))
        ≡ true
      → (e : ℕ) × (expires ≡ some e)
        × (now ≤ e)
        × (stored ≡ some code)
        × (code ≢ "")
        × (6 ≤ len new_password)
  may_reset-Authorised none expires now code new_password h = absurd (ground arith)
  may_reset-Authorised (some c) none now code new_password h = absurd (ground arith)
  may_reset-Authorised (some c) (some e) now code new_password h =
      let same : c ≡ code = (eq_iff c code).0 (ground arith) in
      (
        e,
        refl,
        ground arith,
        ap some same,
        λ empty. ground (arith, (eq_iff c "").1 (same ∙ empty)),
        ground arith,
      )

  -- A request for an account leaves its password as it is, and the account stays, unless the request
  -- is a change with the old password, or a reset with the account's code, which is not empty, in its
  -- time, to a password of six characters at least.
  pub hash_of-apply_request :
      (r : AccountRequest) (m : UserManager) (u : User)
      → select (email_of r) m.users ≡ some u
      → (hash_of (select (email_of r) (apply_request r m).1.users) ≡ some u.password_hash)
        ⊎ Authorised r u
  unfolding apply_request register verify change_password resend_code request_reset reset_password
  hash_of-apply_request (registering sent salt code email password) m u found = inl (ground arith)
  hash_of-apply_request (verifying email code) m u found =
      inl (ground (arith, select-update email email set_verified m))
  hash_of-apply_request (changing salt email old_password new_password) m u found =
      elim (Bool-cases (check_hash u.password_hash old_password)) [
        | inl knows ↦ inr knows
        | inr guesses ↦ inl (ground arith)
      ]
  hash_of-apply_request (resending sent code email) m u found =
      inl (ground (arith, users-send_mail sent, select-update email email (set_code code) m))
  hash_of-apply_request (forgetting sent now code email) m u found = inl (
      ground
        (arith, users-send_mail sent, select-update email email (set_reset code (now + 1800)) m))
  hash_of-apply_request (resetting now salt email code new_password) m u found =
      elim (Bool-cases (may_reset u now code new_password)) [
        | inl may ↦
            inr (may_reset-Authorised u.reset_code u.reset_code_expires now code new_password may)
        | inr may_not ↦ inl (ground arith)
      ]
