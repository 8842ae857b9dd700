-- ===== src/Api/Gates/Revoked.antt =====
-- The tokens that `RevokeClientToken` of internal/identity/manager.go takes back, at the gate
-- `proxyAuth` of internal/httpapi/auth.go in front of both handlers of the proxy.
use opencode_proxy.Base.{
  ◌≡◌, ◌≢◌, ◌⊎◌, inl, inr, ap, sym, subst, false, true, [], ◌++◌, All, Option, none, is_some, some,
  leb, length,
}
use opencode_proxy.Text.{Text, codes, trim_space}
use opencode_proxy.Time.{Time}
use opencode_proxy.Store.Types.{Protocol}
use opencode_proxy.Proxy.Header.{Header, get}
use opencode_proxy.Proxy.World.{World, Incoming}
use opencode_proxy.Proxy.Failover.Answers.{Replies, write_json-Replies}
use opencode_proxy.Identity.{
  Instance, DiskState, written, authenticate_proxy, issue_client_token, revoke_client_token,
  has_client_id,
}
use opencode_proxy.Identity.Access.{IsFree, authenticate-revoke}
use opencode_proxy.Api.Gates.{proxy_token, proxy_auth}
use opencode_proxy.Api.Gates.Entry.{proxy_token_lem, proxy_token-api_key, proxy_auth_lem}
use opencode_proxy.Api.Server.{Backend}
use opencode_proxy.Api.Router.{models_for, proxy_auth_models}

-- The headers have the token, behind `Bearer ` or, without `Authorization`, under `X-Api-Key`.
abbrev pub Carries : Text → Header → Type 0
Carries token h =
    (get (codes "Authorization") h ≡ codes "Bearer " ++ token)
    ⊎ ((get (codes "Authorization") h ≡ []) × (get (codes "X-Api-Key") h ≡ token))

carried :
    (token : Text) (h : Header)
    → trim_space token ≡ token
    → token ≢ []
    → Carries token h
    → proxy_token h ≡ token
carried token h trimmed n (inl e) = proxy_token_lem h token e trimmed n
carried token h trimmed n (inr e) = proxy_token-api_key h token e.0 e.1

models-Replies :
    (b : Backend) (i : Instance) (header : Header) (w : World)
    → is_some i.state ≡ true
    → authenticate_proxy b.hashing (proxy_token header) i ≡ none
    → Replies 401 w (proxy_auth_models b i header w)
unfolding proxy_auth_models
models-Replies b i header w ready nobody =
    subst
      (λ r.
        Replies 401 w (models_for b.env r (authenticate_proxy b.hashing (proxy_token header) i) w))
      (sym ready)
      (subst (λ p. Replies 401 w (models_for b.env true p w)) (sym nobody)
        (write_json-Replies b.env 401 _ w))

module _ (b : Backend) (name id token : Text) (now later : Time) (s : DiskState)
    (file : Option DiskState) where
  -- The token is issued, and then revoked, and the file is written both times.
  abbrev pub revoked_instance : Instance
  revoked_instance =
      (revoke_client_token written id later
        (issue_client_token b.hashing written name id token now
          (record { state = some s; file = file })).1).1

  -- A token that is issued while fewer than 100 are held, under a hash and an id that are not in use,
  -- and revoked by the next call, with the file written by both, is refused from then on: a request
  -- for an inference or for the models that has it, behind `Bearer ` or else under X-Api-Key, is
  -- answered with the status 401 and only bytes, without a call of the upstream and with the database
  -- as it was. The token is not empty and has no spaces around it.
  pub revoked-Replies :
      (protocol : Protocol) (r : Incoming) (request_id : Text) (w : World)
      → leb 100 (length s.clients) ≡ false
      → IsFree (b.hashing.token_hash token) s
      → All (λ d. has_client_id id d ≡ false) s.clients
      → Carries token r.header
      → trim_space token ≡ token
      → token ≢ []
      → Replies 401 w (proxy_auth b.env b.hashing revoked_instance protocol r request_id w)
        × Replies 401 w (proxy_auth_models b revoked_instance r.header w)
  revoked-Replies protocol r request_id w few free fresh e trimmed n =
      let (nobody, state) =
        authenticate-revoke b.hashing name id token now later s file few free fresh in
      let refused =
        subst (λ t. authenticate_proxy b.hashing t revoked_instance ≡ none)
          (sym (carried token r.header trimmed n e)) nobody in
      let ready = ap is_some state in
      (
        (proxy_auth_lem b.env b.hashing revoked_instance protocol r request_id w).1 ready refused,
        models-Replies b revoked_instance r.header w ready refused,
      )
