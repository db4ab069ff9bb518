-- ===== src/Web/Csrf.antt =====
-- backend/app/core/csrf.py: CSRFMiddleware. A
-- request is its method and path, the headers and the cookies that are read. A bearer token is what
-- HTTPBearer makes of the header.
use cerradura_magnetica.Prelude.{
  ℕ, ◌≡◌, refl, Bool, true, false, ◌&&◌, ◌||◌, not, String, text_eq, text_eq_iff, List, [], ◌∷◌,
  Option, none, some, ok, err, if◌then◌else◌, is_none, Bool-cases, Option-cases, inl, inr,
}
use cerradura_magnetica.Models.Auth.{User}
use cerradura_magnetica.Sessions.{Db}
use cerradura_magnetica.Guards.{TokenPayload, not_authenticated, get_current_user}
use cerradura_magnetica.Login.{given, in_list}

pub record Request : Type 0 where
  pub method : String
  pub path : String
  pub authorization : Option String
  pub bearer : Option String
  pub csrf_header : Option String
  pub access_cookie : Option String
  pub refresh_cookie : Option String
  pub csrf_cookie : Option String

abbrev pub unsafe_methods : List String
unsafe_methods = "POST" ∷ "PUT" ∷ "PATCH" ∷ "DELETE" ∷ []

abbrev pub exempt_paths : List String
exempt_paths = "/api/v1/auth/login" ∷ "/api/v1/auth/refresh" ∷ "/api/v1/auth/logout" ∷ []

unfoldable pub is_cookie_authenticated : Request → Bool
is_cookie_authenticated r =
    if not (is_none r.authorization) then false else given r.access_cookie || given r.refresh_cookie

-- `compare_digest` of two tokens that are given; it raises on one that is not ASCII, and the request
-- does not go on either.
abbrev pub same_token : Option String → Option String → Bool
same_token none cookie = false
same_token (some header) none = false
same_token (some header) (some cookie) = text_eq header cookie

-- The middleware: whether the request goes on to its endpoint.
unfoldable pub csrf_dispatch : Request → Bool
unfolding is_cookie_authenticated
csrf_dispatch r =
    if in_list r.method unsafe_methods
      && not (in_list r.path exempt_paths)
      && is_cookie_authenticated r
    then given r.csrf_header && given r.csrf_cookie && same_token r.csrf_header r.csrf_cookie
    else true

same_token-eq :
    (header cookie : Option String)
    → same_token header cookie ≡ true
    → (t : String) × (header ≡ some t) × (cookie ≡ some t)
same_token-eq none cookie h = cc
same_token-eq (some header) none h = cc
same_token-eq (some header) (some cookie) h =
    let same : header ≡ cookie = (text_eq_iff header cookie).0 h in (cookie, rw same refl, refl)

all_three : (a b c : Bool) → (a && b && c) ≡ true → (a ≡ true) × (b ≡ true) × (c ≡ true)
all_three false b c h = cc
all_three true false c h = cc
all_three true true c h = (refl, refl, h)

given-filled : (t : String) → given (some t) ≡ true → text_eq t "" ≡ false
given-filled t h = elim (Bool-cases (text_eq t "")) [
  | inr filled ↦ filled
  | inl blank ↦ let h1 : false ≡ true = rw blank at h in cc
]

module _ (decode_token : String → Option TokenPayload) where
  given_by_cookie :
      (db : Db) (r : Request) (now : ℕ) (user : User)
      → r.bearer ≡ none
      → get_current_user decode_token db r.bearer r.access_cookie now ≡ ok user
      → given r.access_cookie ≡ true
  unfolding get_current_user
  given_by_cookie db r now user bare h = elim (Option-cases r.access_cookie) [
    | inl absent ↦
        let h1 : err not_authenticated ≡ ok user = rw (bare, absent, get_current_user) at h in cc
    | inr (token, there) ↦ elim (Bool-cases (text_eq token "")) [
      | inr filled ↦ rw (there, filled) refl
      | inl blank ↦
          let h1 : err not_authenticated ≡ ok user =
            rw (bare, there, get_current_user, blank) at h in
          cc
    ]
  ]

  -- A request without an Authorization header that changes something, by its method, outside the three
  -- endpoints that begin and end a session: if the middleware lets it on and the guard takes it for a
  -- user's, it has carried the same CSRF token in the header and in the cookie. A page of another site,
  -- which cannot read the cookie, has no such header to send.
  pub csrf_guards :
      (db : Db) (r : Request) (now : ℕ) (user : User)
      → in_list r.method unsafe_methods ≡ true
      → in_list r.path exempt_paths ≡ false
      → r.authorization ≡ none
      → r.bearer ≡ none
      → csrf_dispatch r ≡ true
      → get_current_user decode_token db r.bearer r.access_cookie now ≡ ok user
      → (t : String) × (text_eq t "" ≡ false) × (r.csrf_header ≡ some t) × (r.csrf_cookie ≡ some t)
  unfolding csrf_dispatch is_cookie_authenticated
  csrf_guards db r now user changing guarded plain bare on h =
      let by_cookie = given_by_cookie db r now user bare h in
      let checked : (given r.csrf_header
            && given r.csrf_cookie
            && same_token r.csrf_header r.csrf_cookie)
          ≡ true =
        rw (csrf_dispatch, changing, guarded, plain, by_cookie) at on in
      let (first, second, twice) =
        all_three (given r.csrf_header) (given r.csrf_cookie)
          (same_token r.csrf_header r.csrf_cookie) checked in
      let (t, header, cookie) = same_token-eq r.csrf_header r.csrf_cookie twice in
      (t, given-filled t (rw header at first), header, cookie)
