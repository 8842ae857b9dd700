-- ===== src/Proxy/Header/Privacy.antt =====
-- What of a client's headers reaches the upstream, by `callUpstream` and `copyRequestHeaders` of
-- internal/proxy/service.go.
use opencode_proxy.Base.{◌≡◌, refl, ◌∙◌, true, false, List, [], ◌∷◌, ◌++◌, All, All-map}
use opencode_proxy.Text.{Text, codes, text_eq, to_lower}
use opencode_proxy.Store.Types.{Protocol, openai, anthropic}
use opencode_proxy.Proxy.Header.{Header, get, set, dropped_from_request, copy_request_headers}
use opencode_proxy.Proxy.World.{Env, upstream_request, set_api_key}
use opencode_proxy.Proxy.Header.Entries.{
  Lacks, Only, get-set, get-set_ne, set-Only, set-Only_ne, set-Lacks_ne, copy-Lacks,
}

abbrev pub authorization : Text
authorization = codes "Authorization"

abbrev pub api_key : Text
api_key = codes "X-Api-Key"

abbrev pub content_type : Text
content_type = codes "Content-Type"

-- What stands under `X-Api-Key`: nothing, or the secret of the key for Anthropic.
abbrev pub ApiKeyIs : Protocol → Text → Header → Type 0
ApiKeyIs openai secret h = Lacks api_key h
ApiKeyIs anthropic secret h = Only api_key (secret ∷ []) h × (get api_key h ≡ secret)

private_dropped :
    (dropped_from_request authorization ≡ true) × (dropped_from_request api_key ≡ true)
unfolding dropped_from_request text_eq to_lower
private_dropped = (refl, refl)

names_apart :
    (text_eq authorization api_key ≡ false)
    × (text_eq api_key authorization ≡ false)
    × (text_eq content_type authorization ≡ false)
    × (text_eq content_type api_key ≡ false)
unfolding text_eq
names_apart = (refl, refl, refl, refl)

with_api_key :
    (protocol : Protocol) (secret bearer : Text) (h : Header)
    → Lacks authorization h
    → Lacks api_key h
    → let r =
        set content_type
          (codes "application/json")
          (set_api_key protocol secret (set authorization bearer h)) in
      Only authorization (bearer ∷ []) r
      × (get authorization r ≡ bearer)
      × ApiKeyIs protocol secret r
with_api_key openai secret bearer h la lk =
    let (ak, ka, ca, ck) = names_apart in
    (
      set-Only_ne content_type authorization _ _ _ ca (set-Only authorization bearer h la),
      get-set_ne content_type authorization _ _ ca ∙ get-set authorization bearer h,
      set-Lacks_ne content_type api_key _ _ ck (set-Lacks_ne authorization api_key bearer h ak lk),
    )
with_api_key anthropic secret bearer h la lk =
    let (ak, ka, ca, ck) = names_apart in
    (
      set-Only_ne content_type authorization _ _ _ ca
          (set-Only_ne api_key authorization secret _ _ ka (set-Only authorization bearer h la)),
      get-set_ne content_type authorization _ _ ca
          ∙ (get-set_ne api_key authorization secret _ ka ∙ get-set authorization bearer h),
      (
        set-Only_ne content_type api_key _ _ _ ck
            (set-Only api_key secret _ (set-Lacks_ne authorization api_key bearer h ak lk)),
        get-set_ne content_type api_key _ _ ck ∙ get-set api_key secret _,
      ),
    )

-- The names, besides those of the credentials, that a client's headers do not get through under.
abbrev pub kept_back : List Text
kept_back =
    codes "Connection"
    ∷ codes "Proxy-Connection"
    ∷ codes "Keep-Alive"
    ∷ codes "Proxy-Authenticate"
    ∷ codes "Proxy-Authorization"
    ∷ codes "Te"
    ∷ codes "Trailer"
    ∷ codes "Transfer-Encoding"
    ∷ codes "Upgrade"
    ∷ codes "Host"
    ∷ codes "Content-Length"
    ∷ codes "Accept-Encoding"
    ∷ []

-- The name is dropped, and is none of those that are set.
abbrev StaysOut : Text → Type 0
StaysOut name =
    (dropped_from_request name ≡ true)
    × (text_eq authorization name ≡ false)
    × (text_eq api_key name ≡ false)
    × (text_eq content_type name ≡ false)

kept_back-StaysOut : All StaysOut kept_back
unfolding dropped_from_request text_eq to_lower
kept_back-StaysOut = (
  (refl, refl, refl, refl),
  (
    (refl, refl, refl, refl),
    (
      (refl, refl, refl, refl),
      (
        (refl, refl, refl, refl),
        (
          (refl, refl, refl, refl),
          (
            (refl, refl, refl, refl),
            (
              (refl, refl, refl, refl),
              (
                (refl, refl, refl, refl),
                (
                  (refl, refl, refl, refl),
                  (
                    (refl, refl, refl, refl),
                    ((refl, refl, refl, refl), ((refl, refl, refl, refl), tt)),
                  ),
                ),
              ),
            ),
          ),
        ),
      ),
    ),
  ),
)

set_api_key-Lacks :
    (protocol : Protocol) (secret name : Text) (h : Header)
    → text_eq api_key name ≡ false
    → Lacks name h
    → Lacks name (set_api_key protocol secret h)
set_api_key-Lacks openai secret name h n a = a
set_api_key-Lacks anthropic secret name h n a = set-Lacks_ne api_key name secret h n a

upstream_request-Lacks :
    (env : Env) (header : Header) (query : Text) (protocol : Protocol) (body secret name : Text)
    → StaysOut name
    → Lacks name (upstream_request env header query protocol body secret).header
unfolding upstream_request
upstream_request-Lacks env header query protocol body secret name (d, na, nk, nc) =
    set-Lacks_ne content_type name _ _ nc (
      set_api_key-Lacks protocol secret name _ nk
        (set-Lacks_ne authorization name _ _ na (copy-Lacks name header [] d tt)))

-- Whatever headers a client sends, `Authorization` and `X-Api-Key` reach the upstream only with the
-- secret of the key: the only value of `Authorization` is the bearer token of the key, and `X-Api-Key`
-- is absent for OpenAI and has the secret as its only value for Anthropic. The headers of the
-- connection, and `Host`, `Content-Length` and `Accept-Encoding`, are not passed on at all.
pub upstream_request-ApiKeyIs :
    (env : Env) (header : Header) (query : Text) (protocol : Protocol) (body secret : Text)
    → let r = upstream_request env header query protocol body secret in
      Only authorization ((codes "Bearer " ++ secret) ∷ []) r.header
      × (get authorization r.header ≡ codes "Bearer " ++ secret)
      × ApiKeyIs protocol secret r.header
      × All (λ name. Lacks name r.header) kept_back
unfolding upstream_request
upstream_request-ApiKeyIs env header query protocol body secret =
    let (only, first, of_key) =
      with_api_key protocol secret (codes "Bearer " ++ secret) (copy_request_headers [] header)
        (copy-Lacks authorization header [] private_dropped.0 tt)
        (copy-Lacks api_key header [] private_dropped.1 tt) in
    (
      only,
      first,
      of_key,
      All-map StaysOut _
          (λ name h. upstream_request-Lacks env header query protocol body secret name h) kept_back
          kept_back-StaysOut,
    )
