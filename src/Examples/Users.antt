-- ===== src/Examples/Users.antt =====
-- The accounts with a toy hash: a salt in front of the password.
use ziguijia_translate_ml.Common.{
  String, ◌≡◌, ◌⊎◌, refl, arith, Bool, true, some, [], str_eq, eq_refl,
}
use ziguijia_translate_ml.Sql.{select}
use ziguijia_translate_ml.Accounts.{
  User, UserManager, failure, logged_in, need_verify, register, verify, login, reset_password,
  new_user, send_mail,
}
use ziguijia_translate_ml.Accounts.Requests.{
  registering, changing, apply_request, hash_of, Authorised, hash_of-apply_request,
}
use ziguijia_translate_ml.Accounts.Valid.{IsValid, apply_request-IsValid}
use ziguijia_translate_ml.Accounts.Codes.{login-reset_password, login-register, reset}

abbrev toy_hash : String → String → String
toy_hash salt password = password

abbrev toy_check : String → String → Bool
toy_check stored password = str_eq stored password

toy_check_self : (salt password : String) → toy_check (toy_hash salt password) password ≡ true
toy_check_self salt password = eq_refl password

abbrev nobody : UserManager
nobody = record { users = []; next_id = 1; outbox = [] }

nobody-IsValid : IsValid nobody
nobody-IsValid = record { keyed = tt; ascending = ground arith }

abbrev joined : UserManager
joined = (register toy_hash toy_check true "s" "123456" "a@b.c" "secret" nobody).1

abbrev jane : User
jane = new_user toy_hash toy_check 1 "s" "secret" "123456"

joined-IsValid : IsValid joined
unfolding apply_request
joined-IsValid =
    apply_request-IsValid toy_hash toy_check (registering true "s" "123456" "a@b.c" "secret") nobody
      nobody-IsValid

found : select "a@b.c" joined.users ≡ some jane
unfolding register send_mail select
found = refl

apply_request-IsValid_example :
    IsValid (apply_request toy_hash toy_check (changing "t" "a@b.c" "secret" "hunter2") joined).1
apply_request-IsValid_example =
    apply_request-IsValid toy_hash toy_check (changing "t" "a@b.c" "secret" "hunter2") joined
      joined-IsValid

hash_of-apply_request_example :
    (hash_of (
        select "a@b.c"
          (apply_request toy_hash toy_check
            (changing "t" "a@b.c" "wrong" "hunter2")
            joined).1.users)
      ≡ some jane.password_hash)
    ⊎ Authorised toy_hash toy_check (changing "t" "a@b.c" "wrong" "hunter2") jane
hash_of-apply_request_example =
    hash_of-apply_request toy_hash toy_check (changing "t" "a@b.c" "wrong" "hunter2") joined jane
      found

login-register_example :
    (login toy_hash toy_check "a@b.c" "secret"
        (verify "a@b.c" "123456"
          (register toy_hash toy_check true "s" "123456" "a@b.c" "secret" nobody).1).1
      ≡ logged_in 1 "a@b.c")
    × (login toy_hash toy_check "a@b.c" "secret"
          (register toy_hash toy_check true "s" "123456" "a@b.c" "secret" nobody).1
        ≡ need_verify "a@b.c")
unfolding select
login-register_example =
    login-register toy_hash toy_check toy_check_self true "s" "123456" "a@b.c" "secret" nobody refl

login-reset_password_example :
    (login toy_hash toy_check "a@b.c" "hunter2"
        (reset toy_hash toy_check toy_check_self true 100 1000 "t" "a@b.c" "654321" "654321"
          "hunter2" joined jane found refl).1
      ≡ need_verify "a@b.c")
    × ((reset_password toy_hash toy_check 1100 "v" "a@b.c" "654321" "hunter3"
          (reset toy_hash toy_check toy_check_self true 100 1000 "t" "a@b.c" "654321" "654321"
            "hunter2" joined jane found refl).1).0
        ≡ failure "链接无效或已过期")
unfolding new_user
login-reset_password_example =
    login-reset_password toy_hash toy_check toy_check_self true 100 1000 "t" "a@b.c" "654321"
      "654321" "hunter2" joined jane found refl 1100 "654321" "v" "hunter3" refl
