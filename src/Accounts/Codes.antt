-- ===== src/Accounts/Codes.antt =====
-- The codes that the accounts send: from a registration or a forgotten password to the login.
use mathlib.Core.Path.{ap}
use ziguijia_translate_ml.Common.{
  ℕ, String, ◌≡◌, ◌↔◌, refl, ◌∙◌, Bool, true, false, not, none, some, ◌+◌, ◌&&◌, leb, if◌then◌else◌,
  str_eq, eq_iff, eq_refl, arith,
}
use ziguijia_translate_ml.Sql.{select}
use ziguijia_translate_ml.Accounts.{
  User, UserManager, Answer, success, failure, need_verify, logged_in, update, is_code, is_short,
  new_user, register, login, may_reset, reset_password, verify, request_reset, set_new_password,
  set_verified, set_reset,
}
use ziguijia_translate_ml.Accounts.Requests.{select-update, users-send_mail, select-append}

-- What an UPDATE of an account leaves in it.
select-update_self :
    (email : String) (f : User → User) (m : UserManager) (u : User)
    → select email m.users ≡ some u
    → select email (update email f m).users ≡ some (f u)
select-update_self email f m u found =
    select-update email email f m ∙ rw (found, eq_refl email) refl

select-verify :
    (email code : String) (m : UserManager) (u : User)
    → select email m.users ≡ some u
    → u.verified ≡ false
    → is_code u.verification_code code ≡ true
    → select email (verify email code m).1.users ≡ some (set_verified u)
unfolding verify
select-verify email code m u found unverified right =
    ground (arith, select-update_self email set_verified m u found)

module _ (generate_hash : (salt password : String) → String)
    (check_hash : (hash password : String) → Bool)
    (check_generated : (salt password : String)
      → check_hash (generate_hash salt password) password ≡ true) where
  select-request_reset :
      (sent : Bool) (now : ℕ) (code email : String) (m : UserManager) (u : User)
      → select email m.users ≡ some u
      → select email (request_reset sent now code email m).1.users
        ≡ some (set_reset code (now + 1800) u)
  unfolding request_reset
  select-request_reset sent now code email m u found = ground (
    arith,
    users-send_mail sent,
    select-update_self email (set_reset code (now + 1800)) m u found,
  )

  select-reset_password :
      (now : ℕ) (salt email code new_password : String) (m : UserManager) (u : User)
      → select email m.users ≡ some u
      → may_reset u now code new_password ≡ true
      → select email
          (reset_password generate_hash check_hash now salt email code new_password m).1.users
        ≡ some (set_new_password (generate_hash salt new_password) u)
  unfolding reset_password
  select-reset_password now salt email code new_password m u found granted = ground (
    arith,
    select-update_self email (set_new_password (generate_hash salt new_password)) m u found,
  )

  reset_password_reply :
      (now : ℕ) (salt email code new_password : String) (m : UserManager) (u : User)
      → select email m.users ≡ some u
      → (reset_password generate_hash check_hash now salt email code new_password m).0
        ≡ (if may_reset u now code new_password then success "密码重置成功" else failure "链接无效或已过期")
  unfolding reset_password
  reset_password_reply now salt email code new_password m u found = ground arith

  login_found :
      (email password : String) (m : UserManager) (u : User)
      → select email m.users ≡ some u
      → check_hash u.password_hash password ≡ true
      → login generate_hash check_hash email password m
        ≡ (if u.verified then logged_in u.id email else need_verify email)
  unfolding login
  login_found email password m u found right = ground arith

  module _ (sent : Bool) (asked now : ℕ) (salt email code given new_password : String)
      (m : UserManager) (u : User) (found : select email m.users ≡ some u)
      (some_code : str_eq code "" ≡ false) where
    abbrev pub asked_reset : UserManager
    asked_reset = (request_reset sent asked code email m).1

    abbrev pub reset : Answer × UserManager
    reset = reset_password generate_hash check_hash now salt email given new_password asked_reset

    abbrev pub in_time : Bool
    in_time = leb now (asked + 1800) && (str_eq code given && not (is_short new_password))

    may_reset-in_time : may_reset (set_reset code (asked + 1800) u) now given new_password ≡ in_time
    may_reset-in_time = ground (arith, eq_iff code given, eq_iff code "")

    -- A forgotten password is reset with the code of the last request in the half hour behind it, for
    -- a new password of six characters or more, and in no other case.
    pub reset_password-request_reset :
        reset.0 ≡ (if in_time then success "密码重置成功" else failure "链接无效或已过期")
    reset_password-request_reset =
        reset_password_reply now salt email given new_password asked_reset
          (set_reset code (asked + 1800) u) (select-request_reset sent asked code email m u found)
        ∙ ap (λ b. if b then success "密码重置成功" else failure "链接无效或已过期") may_reset-in_time

    -- After a reset in time, the new password logs in where the email is verified, the code that was
    -- used is refused, whenever and with whatever password it comes back, and so is every other code.
    pub login-reset_password :
        (later : ℕ) (code' salt' again : String)
        → in_time ≡ true
        → (login generate_hash check_hash email new_password reset.1
            ≡ (if u.verified then logged_in u.id email else need_verify email))
          × ((reset_password generate_hash check_hash later salt' email code' again reset.1).0
              ≡ failure "链接无效或已过期")
    login-reset_password later code' salt' again granted =
        let stored =
          select-reset_password now salt email given new_password asked_reset
            (set_reset code (asked + 1800) u) (select-request_reset sent asked code email m u found)
            (may_reset-in_time ∙ granted) in
        (
          login_found email new_password reset.1 _ stored (check_generated salt new_password),
          reset_password_reply later salt' email code' again reset.1 _ stored,
        )

  select-register :
      (sent : Bool) (salt code email password : String) (m : UserManager)
      → select email m.users ≡ none
      → select email (register generate_hash check_hash sent salt code email password m).1.users
        ≡ some (new_user generate_hash check_hash m.next_id salt password code)
  unfolding register
  select-register sent salt code email password m fresh = ground (
    arith,
    users-send_mail sent,
    eq_refl email,
    select-append email (new_user generate_hash check_hash m.next_id salt password code) email
        m.users,
  )

  -- Who registers an email that is not registered, and verifies it with the code that was sent, logs
  -- in with the password; without the verification the password alone does not do.
  pub login-register :
      (sent : Bool) (salt code email password : String) (m : UserManager)
      → select email m.users ≡ none
      → (login generate_hash check_hash email password
            (verify email code
              (register generate_hash check_hash sent salt code email password m).1).1
          ≡ logged_in m.next_id email)
        × (login generate_hash check_hash email password
              (register generate_hash check_hash sent salt code email password m).1
            ≡ need_verify email)
  unfolding new_user
  login-register sent salt code email password m fresh =
      let registered = select-register sent salt code email password m fresh in
      (
        login_found email password _ _ (select-verify email code _ _ registered refl (eq_refl code))
            (check_generated salt password),
        login_found email password _ _ registered (check_generated salt password),
      )

-- Who asks for a reset learns whether the email is registered: the answers differ.
pub request_reset_reveals :
    (sent : Bool) (now : ℕ) (code email : String) (m : UserManager)
    → ((request_reset sent now code email m).0 ≡ success "如果该邮箱已注册，重置密码的邮件已发送")
      ↔ (select email m.users ≡ none)
unfolding request_reset
request_reset_reveals sent now code email m =
    (ground (arith, eq_iff "重置密码的邮件已发送，请查收" "如果该邮箱已注册，重置密码的邮件已发送"), ground arith)
