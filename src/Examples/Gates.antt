-- ===== src/Examples/Gates.antt =====
-- The properties of the gates and of the cipher at concrete values.
use opencode_proxy.Base.{◌≡◌, ◌≢◌, refl, true, [], ◌∷◌, some, inl}
use opencode_proxy.Text.{codes, text_eq, trim_space}
use opencode_proxy.Time.{hours}
use opencode_proxy.Store.Types.{openai}
use opencode_proxy.Proxy.Header.{get}
use opencode_proxy.Proxy.World.{Incoming}
use opencode_proxy.Proxy.Failover.Answers.{Replies}
use opencode_proxy.Api.Sessions.{delete, reset, session_run}
use opencode_proxy.Api.Gates.{AdminRequest, admitted, admin_auth, proxy_auth}
use opencode_proxy.Api.Gates.Entry.{admin_auth-delete}
use opencode_proxy.Api.Gates.Revoked.{revoked-Replies, revoked_instance}
use opencode_proxy.Api.Router.{proxy_auth_models}
use opencode_proxy.Cryptox.{Aead, encrypt, decrypt}
use opencode_proxy.Cryptox.RoundTrip.{decrypt-encrypt}
use opencode_proxy.Examples.{env, world, incoming}
use opencode_proxy.Examples.Startup.{hashing}
use opencode_proxy.Examples.Service.{backend}
use opencode_proxy.Examples.Access.{first, session_calls}

abbrev admin_request : AdminRequest
admin_request = record {
  method = codes "POST";
  cookie = some (codes "aa");
  header = [];
  host = codes "localhost";
}

admin_auth-delete_example :
    ((admin_auth true admin_request
        (hours 2)
        (session_run session_calls (delete (codes "aa") []))).0
      ≢ admitted)
    × ((admin_auth true admin_request (hours 2) (session_run session_calls (reset []))).0
        ≢ admitted)
unfolding text_eq
admin_auth-delete_example =
    admin_auth-delete true admin_request (codes "aa") (hours 2) session_calls [] refl
      (refl, (tt, tt))

abbrev bearer : Incoming
bearer = record incoming { header = (codes "Authorization", codes "Bearer opc_1" ∷ []) ∷ [] }

revoked-Replies_example :
    let i =
      revoked_instance backend
        (codes "laptop")
        (codes "id1")
        (codes "opc_1")
        5
        6
        first
        (some first) in
    Replies 401 world (proxy_auth env hashing i openai bearer (codes "r1") world)
    × Replies 401 world (proxy_auth_models backend i bearer.header world)
unfolding get trim_space text_eq
revoked-Replies_example =
    revoked-Replies backend (codes "laptop") (codes "id1") (codes "opc_1") 5 6 first (some first)
      openai bearer (codes "r1") world refl (refl, tt) tt (inl refl) refl (λ e. cc)

-- A stand-in for the AEAD, with a nonce of two bytes.
abbrev open_aead : Aead
open_aead = record { nonce_size = 2; seal = λ n p. p; open_sealed = λ n c. some c }

decrypt-encrypt_example :
    decrypt open_aead (encrypt open_aead (codes "n1") (codes "secret")) ≡ some (codes "secret")
decrypt-encrypt_example =
    decrypt-encrypt open_aead (codes "n1") (codes "secret") (λ n p e. refl) refl
