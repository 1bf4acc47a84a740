-- ===== src/Accounts.antt =====
-- chatterbox-server/auth.py: `UserManager`, over the table `users` of chatterbox-server/db_schema.py,
-- by the emails, which are unique. Hashing is Werkzeug's and an argument, as are the time, the random
-- codes and whether a mail could be sent. Times are seconds.
pub mod Requests
pub mod Valid
pub mod Codes
use Prim.Native.String.{len}
use ziguijia_translate_ml.Common.{
  ℕ, suc, String, Bool, true, false, not, Option, none, some, List, [], ◌∷◌, ◌++◌, ◌+◌, ◌&&◌, ◌||◌,
  ltb, if◌then◌else◌, str_eq,
}
use ziguijia_translate_ml.Sql.{select, update_key}

-- A row; `email` is its key.
pub record User : Type 0 where
  pub id : ℕ
  pub password_hash : String
  pub verified : Bool
  pub verification_code : Option String
  pub reset_code : Option String
  pub reset_code_expires : Option ℕ

pub data Mail : Type 0 where
  verification_mail : (email code : String) → Mail
  reset_mail : (email code : String) → Mail

-- The table, the id of its next row, and the mails that were sent.
pub record UserManager : Type 0 where
  pub users : List (String × User)
  pub next_id : ℕ
  pub outbox : List Mail

pub data Answer : Type 0 where
  success : String → Answer
  failure : String → Answer
  need_verify : String → Answer
  logged_in : (id : ℕ) (email : String) → Answer

unfoldable pub send_mail : (sent : Bool) → Mail → UserManager → UserManager
send_mail sent mail m = if sent then record m { outbox = m.outbox ++ mail ∷ [] } else m

-- `UPDATE users SET ... WHERE email = ?`
unfoldable pub update : String → (User → User) → UserManager → UserManager
update email f m = record m { users = update_key email (λ u. true) f m.users }

-- What the UPDATE statements set.
abbrev pub set_password : (hash : String) → User → User
set_password hash u = record u { password_hash = hash }

abbrev pub set_new_password : (hash : String) → User → User
set_new_password hash u = record u {
  password_hash = hash;
  reset_code = none;
  reset_code_expires = none;
}

abbrev pub set_verified : User → User
set_verified u = record u { verified = true; verification_code = none }

abbrev pub set_code : (code : String) → User → User
set_code code u = record u { verification_code = some code }

abbrev pub set_reset : (code : String) → (expires : ℕ) → User → User
set_reset code expires u = record u { reset_code = some code; reset_code_expires = some expires }

-- `user[column] == code`
abbrev pub is_code : Option String → String → Bool
is_code none code = false
is_code (some c) code = str_eq c code

-- `len(s) < 6`
abbrev pub is_short : String → Bool
is_short s = ltb (len s) 6

-- The code's time is over, or there is none; `0.0` counts as none.
abbrev pub is_expired : Option ℕ → (now : ℕ) → Bool
is_expired none now = true
is_expired (some expires) now = not (ltb 0 expires) || ltb expires now

-- `not user["reset_code"]`, or another code
abbrev pub is_reset_code : Option String → String → Bool
is_reset_code stored code = is_code stored code && not (is_code stored "")

abbrev pub may_reset : User → (now : ℕ) → (code new_password : String) → Bool
may_reset u now code new_password =
    not (is_expired u.reset_code_expires now)
    && (is_reset_code u.reset_code code && not (is_short new_password))

module _ (generate_hash : (salt password : String) → String)
    (check_hash : (hash password : String) → Bool) where
  unfoldable pub new_user : (id : ℕ) (salt password code : String) → User
  new_user id salt password code = record {
    id = id;
    password_hash = generate_hash salt password;
    verified = false;
    verification_code = some code;
    reset_code = none;
    reset_code_expires = none;
  }

  unfoldable pub register :
      (sent : Bool) → (salt code email password : String) → UserManager → Answer × UserManager
  unfolding send_mail new_user
  register sent salt code email password m = elim (select email m.users) [
    | some existing ↦ (failure "该邮箱已被注册", m)
    | none ↦ (
      success (if sent then "注册成功，请查收验证邮件" else "注册成功（邮件发送失败，请联系管理员）"),
      send_mail sent (verification_mail email code) (record m {
        users = m.users ++ (email, new_user m.next_id salt password code) ∷ [];
        next_id = suc m.next_id;
      }),
    )
  ]

  unfoldable pub login : (email password : String) → UserManager → Answer
  login email password m = elim (select email m.users) [
    | none ↦ failure "邮箱或密码错误"
    | some user ↦
        if not (check_hash user.password_hash password)
        then failure "邮箱或密码错误"
        else (if not user.verified then need_verify email else logged_in user.id email)
  ]

  unfoldable pub change_password :
      (salt email old_password new_password : String) → UserManager → Answer × UserManager
  unfolding update
  change_password salt email old_password new_password m = elim (select email m.users) [
    | none ↦ (failure "用户不存在", m)
    | some user ↦
        if not (check_hash user.password_hash old_password)
        then (failure "原密码错误", m)
        else (if is_short new_password then (failure "新密码至少6个字符", m) else (
          success "密码修改成功",
          update email (set_password (generate_hash salt new_password)) m,
        ))
  ]

  unfoldable pub reset_password :
      (now : ℕ) → (salt email code new_password : String) → UserManager → Answer × UserManager
  unfolding update
  reset_password now salt email code new_password m = elim (select email m.users) [
    | none ↦ (failure "链接无效或已过期", m)
    | some user ↦
        if may_reset user now code new_password
        then (success "密码重置成功", update email (set_new_password (generate_hash salt new_password)) m)
        else (failure "链接无效或已过期", m)
  ]

unfoldable pub verify : (email code : String) → UserManager → Answer × UserManager
unfolding update
verify email code m = elim (select email m.users) [
  | none ↦ (failure "验证失败，请检查邮箱和验证码", m)
  | some user ↦
      if user.verified
      then (success "邮箱已验证", m)
      else (if not (is_code user.verification_code code)
          then (failure "验证失败，请检查邮箱和验证码", m)
          else (success "邮箱验证成功", update email set_verified m))
]

-- `get_user_by_email`: the id and whether the email is verified
unfoldable pub get_user_by_email : String → UserManager → Option (ℕ × Bool)
get_user_by_email email m = elim (select email m.users) [
  | none ↦ none
  | some user ↦ some (user.id, user.verified)
]

unfoldable pub resend_code :
    (sent : Bool) → (code email : String) → UserManager → Answer × UserManager
unfolding update send_mail
resend_code sent code email m = elim (select email m.users) [
  | none ↦ (success "如果该邮箱已注册，验证码已重新发送", m)
  | some user ↦ if user.verified then (success "邮箱已验证", m) else (
    success (if sent then "验证码已重新发送" else "邮件发送失败，请联系管理员"),
    send_mail sent (verification_mail email code) (update email (set_code code) m),
  )
]

unfoldable pub request_reset :
    (sent : Bool) → (now : ℕ) → (code email : String) → UserManager → Answer × UserManager
unfolding update send_mail
request_reset sent now code email m = elim (select email m.users) [
  | none ↦ (success "如果该邮箱已注册，重置密码的邮件已发送", m)
  | some user ↦ (
    success "重置密码的邮件已发送，请查收",
    send_mail sent (reset_mail email code) (update email (set_reset code (now + 1800)) m),
  )
]
