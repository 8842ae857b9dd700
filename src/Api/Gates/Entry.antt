-- ===== src/Api/Gates/Entry.antt =====
-- What the gates of internal/httpapi/auth.go let through.
use opencode_proxy.Base.{
  ◌≡◌, ◌≢◌, refl, ap, sym, subst, ◌∙◌, Bool, true, false, List, [], ◌∷◌, ◌++◌, All, Option, none,
  some, is_some, arith,
}
use opencode_proxy.Text.{Text, codes, trim_space, trim_prefix, strip_prefix}
use opencode_proxy.Time.{Time}
use opencode_proxy.Store.Types.{Protocol}
use opencode_proxy.Proxy.Header.{Header, get}
use opencode_proxy.Proxy.World.{Env, World, Incoming}
use opencode_proxy.Proxy.Failover.Answers.{Replies, write_json-Replies}
use opencode_proxy.Api.Sessions.{Sessions, valid, delete, reset, SessionCall, session_run}
use opencode_proxy.Api.Sessions.Lifetime.{CreatesNot, valid-delete}
use opencode_proxy.Identity.Passwords.{Hashing}
use opencode_proxy.Identity.{Instance, Principal, authenticate_proxy}
use opencode_proxy.Api.Gates.{
  AdminRequest, setup_required, unauthenticated, admitted, checked_session, gate_of, admin_auth,
  api_key_if_empty, proxy_token, on_behalf_of, passed_on, if_ready, proxy_auth,
}
use opencode_proxy.Proxy.Inference.{handle_inference}

gate_of-session : (r : AdminRequest) (b : Bool) → b ≡ false → gate_of r b ≢ admitted
gate_of-session r true e = λ g. cc
gate_of-session r false e = λ g. apart g
  where
    apart : unauthenticated ≡ admitted → ⊥
    apart g = cc

-- After a logout the session's requests, and after a reset the requests of every session, do not get
-- to the console until the token is created again.
pub admin_auth-delete :
    (ready : Bool) (r : AdminRequest) (token : Text) (now : Time) (cs : List SessionCall)
    (s : Sessions)
    → r.cookie ≡ some token
    → All (CreatesNot token) cs
    → ((admin_auth ready r now (session_run cs (delete token s))).0 ≢ admitted)
      × ((admin_auth ready r now (session_run cs (reset s))).0 ≢ admitted)
unfolding admin_auth
admin_auth-delete false r token now cs s e a = (setup_apart, setup_apart)
  where
    setup_apart : setup_required ≡ admitted → ⊥
    setup_apart g = cc
admin_auth-delete true r token now cs s e a =
    let (deleted, cleared) = valid-delete token now cs s a in
    (
      subst (λ c. gate_of r (checked_session c now (session_run cs (delete token s))).0 ≢ admitted)
          (sym e) (gate_of-session r (valid token now (session_run cs (delete token s))).0 deleted),
      subst (λ c. gate_of r (checked_session c now (session_run cs (reset s))).0 ≢ admitted) (sym e)
          (gate_of-session r (valid token now (session_run cs (reset s))).0 cleared),
    )

strip_prefix-append : (p s : Text) → strip_prefix p (p ++ s) ≡ some s
unfolding strip_prefix
strip_prefix-append [] s = refl
strip_prefix-append (c ∷ p) s = ground (arith, strip_prefix-append p s)

trim_prefix-append : (p s : Text) → trim_prefix p (p ++ s) ≡ s
unfolding trim_prefix
trim_prefix-append p s = rw (trim_prefix, strip_prefix-append p s) refl

api_key_if_present : (h : Header) (t : Text) → t ≢ [] → api_key_if_empty h t ≡ t
api_key_if_present h [] n = absurd (n refl)
api_key_if_present h (c ∷ t) n = refl

-- A token without surrounding spaces is read from the header `Authorization: Bearer <token>`, whatever
-- `X-Api-Key` says.
pub proxy_token_lem :
    (h : Header) (token : Text)
    → get (codes "Authorization") h ≡ codes "Bearer " ++ token
    → trim_space token ≡ token
    → token ≢ []
    → proxy_token h ≡ token
unfolding proxy_token
proxy_token_lem h token e trimmed n =
    rw (e, trim_prefix-append (codes "Bearer ") token, trimmed) (api_key_if_present h token n)

-- Without `Authorization` the token is what `X-Api-Key` has.
pub proxy_token-api_key :
    (h : Header) (token : Text)
    → get (codes "Authorization") h ≡ []
    → get (codes "X-Api-Key") h ≡ token
    → proxy_token h ≡ token
unfolding proxy_token trim_prefix strip_prefix trim_space
proxy_token-api_key h token e k = rw (e, k) refl

-- The gate of the proxy: 503 on an instance that is not set up and 401 for a token that nobody has,
-- both without a call of the upstream and with the database as it was; any other request is handled
-- on behalf of the client whose token it has.
pub proxy_auth_lem :
    (env : Env) (h : Hashing) (i : Instance) (protocol : Protocol) (r : Incoming) (id : Text)
    (w : World)
    → (is_some i.state ≡ false → Replies 503 w (proxy_auth env h i protocol r id w))
      × (is_some i.state ≡ true
          → authenticate_proxy h (proxy_token r.header) i ≡ none
          → Replies 401 w (proxy_auth env h i protocol r id w))
      × ((p : Principal)
          → is_some i.state ≡ true
          → authenticate_proxy h (proxy_token r.header) i ≡ some p
          → proxy_auth env h i protocol r id w
            ≡ handle_inference env protocol (on_behalf_of p r) id w)
unfolding proxy_auth
proxy_auth_lem env h i protocol r id w = (
  λ e.
      subst (λ b. Replies 503 w (if_ready env found protocol r id w b)) (sym e)
        (write_json-Replies env 503 _ w),
  λ e n.
      subst (λ b. Replies 401 w (if_ready env found protocol r id w b)) (sym e)
        (subst (λ p. Replies 401 w (passed_on env protocol r id w p)) (sym n)
          (write_json-Replies env 401 _ w)),
  λ p e f. ap (if_ready env found protocol r id w) e ∙ ap (passed_on env protocol r id w) f,
)
  where
    found : Option Principal
    found = authenticate_proxy h (proxy_token r.header) i
