-- ===== src/Proxy.antt =====
-- frontend/src/app/api/[...path]/route.ts: what is forwarded to the API, and what is returned.
use interbellum.Common.{
  ℕ, List, [], ◌∷◌, ◌++◌, Bool, true, false, ◌||◌, ◌≡◌, refl, ◌∙◌, ap, inl, inr, Bool-cases, Option,
  none, some, if◌then◌else◌, map, if-ind,
}
use interbellum.Text.{Text, codes, ◌==◌}
use interbellum.Text.Equality.{==_iff}
use interbellum.Text.Sets.{has}
use interbellum.Text.Maps.{get, put, get-put}

-- `request.headers` by lower-case names; `search` is `request.nextUrl.search`.
pub record BrowserRequest : Type 0 where
  pub method : Text
  pub search : Text
  pub headers : List (Text × Text)
  pub text : Text

pub record UpstreamCall : Type 0 where
  pub target : Text
  pub method : Text
  pub headers : List (Text × Text)
  pub body : Option Text

abbrev pub forwarded_request_headers : List Text
forwarded_request_headers = codes "content-type" ∷ codes "accept" ∷ codes "idempotency-key" ∷ []

-- `if (value) headers.set(name, value)`.
abbrev pub set_if : List (Text × Text) → Text → Option Text → List (Text × Text)
set_if headers name none = headers
set_if headers name (some []) = headers
set_if headers name (some (c ∷ s)) = put headers name (c ∷ s)

unfoldable pub forward_headers :
    List (Text × Text) → List Text → List (Text × Text) → List (Text × Text)
forward_headers from [] headers = headers
forward_headers from (name ∷ names) headers =
    forward_headers from names (set_if headers name (get from name))

abbrev pub join_path : List Text → Text
join_path [] = []
join_path (part ∷ []) = part
join_path (part ∷ next ∷ parts) = part ++ (codes "/" ++ join_path (next ∷ parts))

abbrev pub has_no_body : Text → Bool
has_no_body method = method == codes "GET" || method == codes "HEAD"

-- `backend_url` is the environment's, less its final slashes; `encode` is `encodeURIComponent`.
unfoldable pub upstream_call : Text → (Text → Text) → BrowserRequest → List Text → UpstreamCall
upstream_call backend_url encode request path = record {
  target = backend_url ++ (codes "/api/" ++ (join_path (map encode path) ++ request.search));
  method = request.method;
  headers = forward_headers request.headers forwarded_request_headers [];
  body = if has_no_body request.method then none else some request.text;
}

pub record ProxyResponse : Type 0 where
  pub status : ℕ
  pub headers : List (Text × Text)
  pub body : Text

-- What `fetch` ends in.
pub data Upstream : Type 0 where
  answered : ProxyResponse → Upstream
  unreachable : Upstream

-- `Response.json` prints the body without spaces and names its type.
unfoldable pub proxy_response : Upstream → ProxyResponse
proxy_response (answered upstream) = record {
  status = upstream.status;
  headers =
      put (set_if [] (codes "content-type") (get upstream.headers (codes "content-type")))
        (codes "cache-control") (codes "no-store");
  body = upstream.body;
}
proxy_response unreachable = record {
  status = 503;
  headers = (codes "content-type", codes "application/json") ∷ [];
  body = codes "{\"code\":\"NOT_READY\",\"message\":\"the API is unreachable from the console\"}";
}

abbrev pub unless_blank : Option Text → Option Text
unless_blank none = none
unless_blank (some []) = none
unless_blank (some (c ∷ s)) = some (c ∷ s)

abbrev pub first_of : Option Text → Option Text → Option Text
first_of none fallback = fallback
first_of (some a) fallback = some a

-- Where the browser's header is set, set; otherwise as before.
get-set_if :
    (headers : List (Text × Text)) (name key : Text) (o : Option Text)
    → get (set_if headers name o) key
      ≡ (if name == key then first_of (unless_blank o) (get headers key) else get headers key)
get-set_if headers name key none =
    if-ind (λ (r : Option Text). get headers key ≡ r) (name == key) _ _ (λ t. refl) (λ f. refl)
get-set_if headers name key (some []) =
    if-ind (λ (r : Option Text). get headers key ≡ r) (name == key) _ _ (λ t. refl) (λ f. refl)
get-set_if headers name key (some (c ∷ s)) = get-put headers name key (c ∷ s)

get-forward_headers :
    (from : List (Text × Text)) (names : List Text) (headers : List (Text × Text)) (key : Text)
    → get (forward_headers from names headers) key ≡ (
        if has names key
        then first_of (unless_blank (get from key)) (get headers key)
        else get headers key)
unfolding forward_headers has
get-forward_headers from [] headers key = refl
get-forward_headers from (name ∷ names) headers key =
    get-forward_headers from names (set_if headers name (get from name)) key
    ∙ merged (has names key) (get-set_if headers name key (get from name))
  where
    first_twice : (a b : Option Text) → first_of a (first_of a b) ≡ first_of a b
    first_twice none b = refl
    first_twice (some a) b = refl

    twice :
        (known : Bool)
        → (if known
            then first_of
                (unless_blank (get from key))
                (first_of (unless_blank (get from key)) (get headers key))
            else first_of (unless_blank (get from key)) (get headers key))
          ≡ first_of (unless_blank (get from key)) (get headers key)
    twice true = first_twice (unless_blank (get from key)) (get headers key)
    twice false = refl

    merged :
        (known : Bool)
        → get (set_if headers name (get from name)) key ≡ (
            if name == key
            then first_of (unless_blank (get from name)) (get headers key)
            else get headers key)
        → (if known
            then first_of
                (unless_blank (get from key))
                (get (set_if headers name (get from name)) key)
            else get (set_if headers name (get from name)) key)
          ≡ (if name == key || known
              then first_of (unless_blank (get from key)) (get headers key)
              else get headers key)
    merged known e = elim (Bool-cases (name == key)) [
      | inl t ↦
          let same : get from name ≡ get from key = ap (get from) ((==_iff name key).0 t) in
          rw (e, t, same) (twice known)
      | inr f ↦ rw (e, f)
    ]

-- The API is sent a header exactly if it is one of the three on the list and the browser sent it,
-- not blank, and then with the value that the browser sent.
pub get-upstream_call :
    (backend_url : Text) (encode : Text → Text) (request : BrowserRequest) (path : List Text)
    (key : Text)
    → get (upstream_call backend_url encode request path).headers key
      ≡ (if has forwarded_request_headers key then unless_blank (get request.headers key) else none)
unfolding upstream_call get
get-upstream_call backend_url encode request path key =
    get-forward_headers request.headers forwarded_request_headers [] key ∙ from_none _ _
  where
    from_none :
        (b : Bool) (a : Option Text)
        → (if b then first_of a none else none) ≡ (if b then a else none)
    from_none true none = refl
    from_none true (some a) = refl
    from_none false a = refl
