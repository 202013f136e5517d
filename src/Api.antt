-- ===== src/Api.antt =====
-- cmd/hm-api-server/server.go: the layers around the handlers of the API, and config.go's list of
-- origins. The handlers behind them, `mux`, are a parameter, and a header that is absent is empty.
pub mod Access
use home_metrics.Base.{
  ℕ, Bool, true, false, List, [], ◌∷◌, ◌++◌, ◌&&◌, ◌||◌, not, if◌then◌else◌, ◌==◌, map,
}
use home_metrics.Base.Text.{Text, codes, eq_text, trim_space}
use home_metrics.Store.{is_blank}
use home_metrics.Spaces.{split_commas}

pub record Request : Type 0 where
  pub http_method : Text
  pub path : Text
  pub header : Text → Text

-- What has been written of a response: its headers, the newest first, its status and its message.
pub record Writer : Type 0 where
  pub headers : List (Text × Text)
  pub status : ℕ
  pub message : Text

-- A handler on a state of the program.
abbrev pub Handler : Type 0 → Type 0
Handler D = Request → Writer → D → D × Writer

pub record ApiServer : Type 0 where
  pub api_token : Text
  pub allowed_origins : List Text

abbrev set_header : Text → Text → Writer → Writer
set_header name value w = record w { headers = (name, value) ∷ w.headers }

abbrev pub write_error : ℕ → Text → Writer → Writer
write_error code text w = record w { status = code; message = text }

unfoldable pub has_prefix : Text → Text → Bool
has_prefix [] s = true
has_prefix (c ∷ p) [] = false
has_prefix (c ∷ p) (x ∷ s) = c == x && has_prefix p s

-- `strings.TrimPrefix`.
abbrev pub rest_after : Text → Text → Text
rest_after [] s = s
rest_after (c ∷ p) [] = []
rest_after (c ∷ p) (x ∷ s) = rest_after p s

unfoldable pub trim_prefix : Text → Text → Text
unfolding has_prefix
trim_prefix p s = if has_prefix p s then rest_after p s else s

-- The origins that are not empty.
abbrev non_empty : List Text → List Text
non_empty [] = []
non_empty (s ∷ ss) = if is_blank s then non_empty ss else s ∷ non_empty ss

unfoldable pub parse_allowed_origins : Text → List Text
unfolding trim_space
parse_allowed_origins raw = non_empty (map trim_space (split_commas raw))

abbrev has_origin : List Text → Text → Bool
has_origin [] origin = false
has_origin (o ∷ os) origin = eq_text o origin || has_origin os origin

abbrev no_origin : List Text → Bool
no_origin [] = true
no_origin (o ∷ os) = false

unfoldable pub is_origin_allowed : ApiServer → Text → Bool
is_origin_allowed api origin =
    if is_blank origin || no_origin api.allowed_origins
    then false
    else has_origin api.allowed_origins (codes "*") || has_origin api.allowed_origins origin

abbrev pub is_options : Request → Bool
is_options r = eq_text r.http_method (codes "OPTIONS")

-- What `withAuth` takes for the token of a request.
abbrev pub or_header : Text → Text → Text
or_header token other = if is_blank token then other else token

unfoldable pub token_of : Request → Text
unfolding trim_prefix trim_space
token_of r =
    or_header (trim_space (trim_prefix (codes "Bearer ") (r.header (codes "Authorization"))))
      (r.header (codes "X-API-Token"))

-- The requests that need no token.
unfoldable pub is_open : ApiServer → Request → Bool
unfolding has_prefix
is_open api r =
    is_options r
    || not (has_prefix (codes "/api/") r.path)
    || eq_text r.path (codes "/api/health")
    || is_blank api.api_token

abbrev allow : Text → Writer → Writer
allow origin w =
    set_header (codes "Access-Control-Allow-Methods") (codes "GET, POST, PUT, DELETE, OPTIONS") (
      set_header (codes "Access-Control-Allow-Headers")
        (codes "Authorization, Content-Type, X-API-Token")
        (set_header (codes "Vary") (codes "Origin")
          (set_header (codes "Access-Control-Allow-Origin") origin w)))

abbrev pub allowed : ApiServer → Request → Writer → Writer
allowed api r w =
    let origin = r.header (codes "Origin") in
    if is_origin_allowed api origin then allow origin w else w

module _ {D : Type 0} where
  unfoldable pub with_json : Handler D → Handler D
  unfolding has_prefix
  with_json next r w d =
      if has_prefix (codes "/api/") r.path
      then next r (set_header (codes "Content-Type") (codes "application/json") w) d
      else next r w d

  unfoldable pub with_auth : ApiServer → Handler D → Handler D
  unfolding is_open token_of
  with_auth api next r w d =
      if is_open api r
      then next r w d
      else if not (eq_text (token_of r) api.api_token)
      then (d, write_error 401 (codes "unauthorized") w)
      else next r w d

  unfoldable pub with_cors : ApiServer → Handler D → Handler D
  unfolding is_origin_allowed
  with_cors api next r w d =
      if is_options r
      then (d, record (allowed api r w) { status = 204 })
      else next r (allowed api r w) d

  -- `newRouter` around its `mux`.
  unfoldable pub router : ApiServer → Handler D → Handler D
  unfolding with_cors with_auth with_json
  router api mux = with_cors api (with_auth api (with_json mux))
