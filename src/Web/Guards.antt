-- ===== src/Web/Guards.antt =====
-- What the guards in front of the routes let through.
use ziguijia_translate_ml.Common.{
  ℕ, String, ◌≡◌, refl, ◌⊎◌, Bool, true, false, ◌&&◌, ◌||◌, arith, ◌==◌, is_some, str_eq, eq_iff,
  is_nonempty, Bool-cases, inl, inr,
}
use ziguijia_translate_ml.Web.{
  Session, Request, Outcome, View, answer, http_exception, value_error, exception, text_or_empty,
  token_of, compare_digest, caught, guarded, is_ascii,
}

-- The request may pass: there is a user in the session, and the request carries the session's token,
-- which is not empty.
abbrev pub may_pass : Session → Request → Bool
may_pass s req =
    is_some s.user_id
    && (is_nonempty (token_of req)
        && (str_eq (token_of req) (text_or_empty s.csrf_token)
            && (is_ascii (token_of req) && is_ascii (text_or_empty s.csrf_token))))

-- What becomes of a view's outcome: a ValueError is answered with 400, and any other exception with
-- 500, but an HTTPException of werkzeug passes through, as does a response.
pub data Answered {B : Type 0} (error : String → B) : Outcome B → Outcome B → Type 0 where
  as_is : (status : ℕ) (b : B) → Answered error (answer status b) (answer status b)
  re_raised : Answered error http_exception http_exception
  bad_request : (e : String) → Answered error (value_error e) (answer 400 (error e))
  server_error : (e : String) → Answered error (exception e) (answer 500 (error e))

Answered-caught :
    {B : Type 0} (error : String → B) (o : Outcome B) → Answered error o (caught error o)
Answered-caught error (answer status b) = as_is status b
Answered-caught error http_exception = re_raised
Answered-caught error (value_error e) = bad_request e
Answered-caught error (exception e) = server_error e

-- A refusal: the status of one, or the TypeError of the comparison.
abbrev pub is_refusal : {B : Type 0} → Outcome B → Bool
is_refusal (answer status b) = (status == 401) || (status == 403)
is_refusal (exception e) = true
is_refusal _ = false

module _ {B W : Type 0} (error : String → B) (s : Session) (req : Request) where
  passes :
      (f : View B W) (w : W)
      → may_pass s req ≡ true
      → guarded error s req f w ≡ (caught error (f w).0, (f w).1)
  unfolding guarded compare_digest
  passes f w h = ground (arith, eq_iff (token_of req) (text_or_empty s.csrf_token))

  refuses :
      (f : View B W) (w : W)
      → may_pass s req ≡ false
      → (is_refusal (guarded error s req f w).0 ≡ true) × ((guarded error s req f w).1 ≡ w)
  unfolding guarded compare_digest
  refuses f w h = ground arith

  -- A route behind the three guards runs exactly when there is a user in the session and the request
  -- carries the session's token, which is not empty and ASCII; any other request is refused, with 401,
  -- 403 or the TypeError of the comparison, and leaves the state as it was. What the route raises is
  -- answered with 400 for a ValueError, raised again for an HTTPException of werkzeug, and answered with
  -- 500 for any other exception.
  pub guarded_lem :
      (f : View B W) (w : W)
      → ((may_pass s req ≡ true)
          × Answered error (f w).0 (guarded error s req f w).0
          × ((guarded error s req f w).1 ≡ (f w).1))
        ⊎ ((may_pass s req ≡ false)
            × (is_refusal (guarded error s req f w).0 ≡ true)
            × ((guarded error s req f w).1 ≡ w))
  guarded_lem f w = elim (Bool-cases (may_pass s req)) [
    | inl may ↦
        inl (may, rw (passes f w may) (Answered-caught error (f w).0), rw (passes f w may) refl)
    | inr not_allowed ↦ inr (not_allowed, (refuses f w not_allowed).0, (refuses f w not_allowed).1)
  ]
