-- ===== src/Tests/Requests.antt =====
-- The layers of the API server at concrete requests, on a counter of the calls of a handler.
use home_metrics.Base.{ℕ, suc, ◌≡◌, ◌≢◌, refl, sym, ◌∙◌, [], ◌∷◌, ◌++◌, ◌⊎◌, if◌then◌else◌, arith}
use home_metrics.Base.Text.{Text, codes, eq_text, is_space}
use home_metrics.Api.{Request, Writer, Handler, ApiServer, parse_allowed_origins, router}
use home_metrics.Api.Access.{Presents, NeedsNoToken, router-Presents}

abbrev server : ApiServer
server = record { api_token = codes "secret"; allowed_origins = codes "https://home" ∷ [] }

abbrev mux : Handler ℕ
mux r w d = (suc d, w)

abbrev ready : Writer
ready = record { headers = []; status = 200; message = [] }

abbrev request : Text → Request
request token = record {
  http_method = codes "POST";
  path = codes "/api/devices";
  header = λ name. if eq_text name (codes "Authorization") then codes "Bearer " ++ token else [];
}

origins : parse_allowed_origins (codes " https://home,, *") ≡ codes "https://home" ∷ codes "*" ∷ []
unfolding parse_allowed_origins is_space
origins = refl

called : (router server mux (request (codes "secret")) ready 0).0 ≡ 1
unfolding router eq_text is_space
called = refl

refused : (router server mux (request (codes "secreT")) ready 0).0 ≡ 0
unfolding router eq_text is_space
refused = refl

suc-zero : (n : ℕ) → suc n ≢ 0
suc-zero n e = ground arith

router-Presents_example :
    NeedsNoToken server (request (codes "secret"))
    ⊎ Presents (codes "secret") (request (codes "secret"))
router-Presents_example =
    router-Presents server mux (request (codes "secret")) ready 0 (λ e. suc-zero 0 (sym called ∙ e))
