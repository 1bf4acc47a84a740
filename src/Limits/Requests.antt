-- ===== src/Limits/Requests.antt =====
-- chatterbox-server/middleware.py: the limits by address and by email, over the shared counter and the
-- in-memory limiters, whose times are seconds here.
use Prim.Native.String.{◌++◌ as str_append}
use ziguijia_translate_ml.Common.{
  ℕ, String, ◌≡◌, refl, Bool, true, false, if◌then◌else◌, Bool-cases, inl, inr,
}
use ziguijia_translate_ml.Limits.{
  CounterReply, server_down, pipeline_error, counter, check_rate_limit, Store, check,
}

-- `_check_ip_rate_limit`: the in-memory limiter serves while no server can be reached.
unfoldable pub check_ip_rate_limit :
    CounterReply → (now : ℕ) → (ip_key : String) → Store → Bool × Store
unfolding check check_rate_limit
check_ip_rate_limit server_down now ip_key d = check 10 60 now ip_key d
check_ip_rate_limit pipeline_error now ip_key d = (check_rate_limit pipeline_error 10, d)
check_ip_rate_limit (counter n) now ip_key d = (check_rate_limit (counter n) 10, d)

-- `rate_limit`: whether the request goes on
unfoldable pub rate_limit : CounterReply → (now : ℕ) → (ip : String) → Store → Bool × Store
unfolding check_ip_rate_limit
rate_limit reply now ip d = check_ip_rate_limit reply now (str_append "rl:ip:" ip) d

-- `email_rate_limit`: both limiters must admit the request.
unfoldable pub email_rate_limit : CounterReply → (now : ℕ) → (email : String) → Store → Bool × Store
unfolding check check_rate_limit
email_rate_limit reply now email d =
    let counted = check 3 3600 now (str_append "rl:email:" email) d in
    if check_rate_limit reply 3 then counted else (false, d)

-- While the server of the counter answers with an error, every request of every address goes on, and
-- the in-memory limiter does not see it.
rate_limit_error :
    (now : ℕ) (ip : String) (d : Store) → rate_limit pipeline_error now ip d ≡ (true, d)
unfolding rate_limit
rate_limit_error now ip d = refl

-- Where the email's limiter in memory refuses a request, the request is refused whatever the counter
-- answers.
email_rate_limit_memory :
    (reply : CounterReply) (now : ℕ) (email : String) (d : Store)
    → (check 3 3600 now (str_append "rl:email:" email) d).0 ≡ false
    → (email_rate_limit reply now email d).0 ≡ false
unfolding email_rate_limit
email_rate_limit_memory reply now email d refused = elim (Bool-cases (check_rate_limit reply 3)) [
  | inl admitted ↦ rw admitted refused
  | inr over ↦ rw over refl
]
