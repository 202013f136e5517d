-- ===== src/Api/Access.antt =====
-- cmd/hm-api-server/server.go: who reaches the handlers of the API.
use home_metrics.Base.{
  Bool, true, false, ◌≡◌, ◌≢◌, refl, sym, ap, [], ◌∷◌, ◌++◌, ◌⊎◌, inl, inr, ◌||◌, not, arith, ◌==◌,
  ==_iff, and_true, if◌then◌else◌,
}
use home_metrics.Base.Text.{Text, codes, eq_text, eq_text→eq, trim_space}
use home_metrics.Store.{is_blank}
use home_metrics.Api.{
  Request, Writer, Handler, ApiServer, has_prefix, rest_after, trim_prefix, or_header, token_of,
  is_open, is_options, with_auth, with_cors, router,
}

prefix-rest : (p s : Text) → has_prefix p s ≡ true → s ≡ p ++ rest_after p s
unfolding has_prefix
prefix-rest [] s h = refl
prefix-rest (c ∷ p) [] h = ground arith
prefix-rest (c ∷ p) (x ∷ s) h =
    let both = and_true (c == x) (has_prefix p s) h in
    rw (sym ((==_iff c x).0 both.0)) (ap (λ l. c ∷ l) (prefix-rest p s both.1))

-- The ways a request can carry a token.
pub data Presents (token : Text) (r : Request) : Type 0 where
  bearer :
      (s : Text)
      → r.header (codes "Authorization") ≡ codes "Bearer " ++ s
      → trim_space s ≡ token
      → Presents token r
  plain : trim_space (r.header (codes "Authorization")) ≡ token → Presents token r
  api_header : r.header (codes "X-API-Token") ≡ token → Presents token r

-- The requests that everyone may make.
abbrev pub NeedsNoToken : ApiServer → Request → Type 0
NeedsNoToken api r =
    (has_prefix (codes "/api/") r.path ≡ false)
    ⊎ (r.path ≡ codes "/api/health")
    ⊎ (is_blank api.api_token ≡ true)

one_of :
    (a b c e : Bool)
    → a ≡ false
    → (a || not b || c || e) ≡ true
    → (b ≡ false) ⊎ (c ≡ true) ⊎ (e ≡ true)
one_of a false c e h o = inl refl
one_of a true true e h o = inr (inl refl)
one_of a true false true h o = inr (inr refl)
one_of a true false false h o = ground arith

open-NeedsNoToken :
    (api : ApiServer) (r : Request)
    → is_options r ≡ false
    → is_open api r ≡ true
    → NeedsNoToken api r
unfolding is_open
open-NeedsNoToken api r h o =
    elim (one_of (is_options r) (has_prefix (codes "/api/") r.path)
      (eq_text r.path (codes "/api/health")) (is_blank api.api_token) h o) [
        | inl n ↦ inl n
        | inr (inl e) ↦ inr (inl (eq_text→eq r.path (codes "/api/health") e))
        | inr (inr b) ↦ inr (inr b)
      ]

trimmed-Presents :
    (token : Text) (r : Request) (b : Bool)
    → has_prefix (codes "Bearer ") (r.header (codes "Authorization")) ≡ b
    → trim_space (
        if b
        then rest_after (codes "Bearer ") (r.header (codes "Authorization"))
        else r.header (codes "Authorization"))
      ≡ token
    → Presents token r
trimmed-Presents token r true p e =
    bearer (rest_after (codes "Bearer ") (r.header (codes "Authorization")))
      (prefix-rest (codes "Bearer ") (r.header (codes "Authorization")) p) e
trimmed-Presents token r false p e = plain e

or_header-cases : (t o token : Text) → or_header t o ≡ token → (t ≡ token) ⊎ (o ≡ token)
or_header-cases [] o token e = inr e
or_header-cases (c ∷ t) o token e = inl e

token-Presents : (token : Text) (r : Request) → token_of r ≡ token → Presents token r
unfolding token_of trim_prefix
token-Presents token r e =
    elim (or_header-cases
      (trim_space (trim_prefix (codes "Bearer ") (r.header (codes "Authorization"))))
      (r.header (codes "X-API-Token")) token e) [
        | inl h ↦
            trimmed-Presents token r
              (has_prefix (codes "Bearer ") (r.header (codes "Authorization"))) refl h
        | inr h ↦ api_header h
      ]

module _ {D : Type 0} where
  passed :
      (o p t : Bool) (d : D) (x y : D × Writer) (u v : Writer)
      → (if o then (d, u) else if p then x else if not t then (d, v) else y).0 ≢ d
      → ((o ≡ false) × (p ≡ true)) ⊎ (t ≡ true)
  passed true p t d x y u v h = elim (h refl) [ ]
  passed false true t d x y u v h = inl (refl, refl)
  passed false false true d x y u v h = inr refl
  passed false false false d x y u v h = elim (h refl) [ ]

  -- Whatever the handlers behind the router do, a request through it that changes the state of the
  -- program is for a page outside `/api/` or for `/api/health`, or no token is configured, or it
  -- presents the configured token, as a bearer, as the whole Authorization or as X-API-Token.
  pub router-Presents :
      (api : ApiServer) (mux : Handler D) (r : Request) (w : Writer) (d : D)
      → (router api mux r w d).0 ≢ d
      → NeedsNoToken api r ⊎ Presents api.api_token r
  unfolding router with_cors with_auth
  router-Presents api mux r w d h =
      elim (passed (is_options r) (is_open api r) (eq_text (token_of r) api.api_token) d _ _ _ _
        h) [
          | inl q ↦ inl (open-NeedsNoToken api r q.0 q.1)
          | inr t ↦ inr (token-Presents api.api_token r (eq_text→eq (token_of r) api.api_token t))
        ]
