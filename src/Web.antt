-- ===== src/Web.antt =====
-- chatterbox-server/middleware.py: what stands in front of the routes, the session's CSRF token, the
-- login, the answers to exceptions, and which files a request may name. A view is a function that
-- gives its outcome and the new state.
pub mod Guards
pub mod Paths
pub mod Srt
pub mod Files
use Prim.Native.Char.{code}
use ziguijia_translate_ml.Common.{
  ℕ, String, Bool, true, false, not, Option, none, some, [], ◌∷◌, ◌&&◌, ◌||◌, ltb, is_some, str_eq,
  is_nonempty, if◌then◌else◌,
}

-- The two keys of the session that the code reads.
pub record Session : Type 0 where
  pub user_id : Option ℕ
  pub csrf_token : Option String

-- `request.form.get("csrf_token", "")`, which may raise
pub data FormRead : Type 0 where
  form_raises : FormRead
  form_token : Option String → FormRead

pub record Request : Type 0 where
  pub header_token : Option String
  pub form : FormRead

-- A response with a status and a body, or an exception: of werkzeug, a ValueError, or any other.
pub data Outcome (B : Type 0) : Type 0 where
  answer : (status : ℕ) → B → Outcome B
  http_exception : Outcome B
  value_error : String → Outcome B
  exception : String → Outcome B

abbrev pub text_or_empty : Option String → String
text_or_empty none = ""
text_or_empty (some s) = s

-- `generate_csrf_token`; `fresh` is `secrets.token_hex(32)`
unfoldable pub generate_csrf_token : (fresh : String) → Session → String × Session
generate_csrf_token fresh s = elim s.csrf_token [
  | some token ↦ (token, s)
  | none ↦ (fresh, record s { csrf_token = some fresh })
]

abbrev pub form_text : FormRead → String
form_text form_raises = ""
form_text (form_token t) = text_or_empty t

-- The token that the request carries.
unfoldable pub token_of : Request → String
token_of req =
    let header = text_or_empty req.header_token in
    if is_nonempty header then header else form_text req.form

abbrev pub is_ascii : String → Bool
is_ascii String.[] = true
is_ascii (String.◌∷◌ c s) = ltb (code c) 128 && is_ascii s

-- `secrets.compare_digest`, which raises TypeError on a text that is not ASCII
unfoldable pub compare_digest : String → String → Option Bool
compare_digest a b = if is_ascii a && is_ascii b then some (str_eq a b) else none

abbrev pub View : Type 0 → Type 0 → Type 0
View B W = W → Outcome B × W

abbrev pub caught : {B : Type 0} → (error : String → B) → Outcome B → Outcome B
caught error (answer status b) = answer status b
caught error http_exception = http_exception
caught error (value_error e) = answer 400 (error e)
caught error (exception e) = answer 500 (error e)

module _ {B W : Type 0} (error : String → B) where
  abbrev pub compared : Option Bool → View B W → View B W
  compared none f w = (exception "TypeError: comparing strings with non-ASCII characters", w)
  compared (some true) f w = f w
  compared (some false) f w = (answer 403 (error "CSRF token missing or invalid"), w)

  -- `csrf_required`
  unfoldable pub csrf_required : Session → Request → View B W → View B W
  unfolding token_of compare_digest
  csrf_required s req f w =
      let expected = text_or_empty s.csrf_token in
      let token = token_of req in
      if not (is_nonempty expected) || not (is_nonempty token)
      then (answer 403 (error "CSRF token missing or invalid"), w)
      else compared (compare_digest token expected) f w

  -- `login_required`
  unfoldable pub login_required : Session → View B W → View B W
  login_required s f w = if not (is_some s.user_id) then (answer 401 (error "请先登录"), w) else f w

  -- `api_endpoint`; what a view wrote before it raised stays.
  unfoldable pub api_endpoint : View B W → View B W
  api_endpoint f w = let (o, w') = f w in (caught error o, w')

  -- `@login_required @csrf_required @api_endpoint`, and without the second
  unfoldable pub guarded : Session → Request → View B W → View B W
  unfolding login_required csrf_required api_endpoint
  guarded s req f = login_required s (csrf_required s req (api_endpoint f))

  unfoldable pub logged_in : Session → View B W → View B W
  unfolding login_required api_endpoint
  logged_in s f = login_required s (api_endpoint f)
