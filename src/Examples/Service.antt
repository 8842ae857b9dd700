-- ===== src/Examples/Service.antt =====
-- The service as a whole at concrete values: an instance that is set up, and an administrator with a
-- session.
use opencode_proxy.Base.{◌+◌, ◌≡◌, refl, false, List, [], ◌∷◌, ◌++◌, none, some, arith}
use opencode_proxy.Base.Int.{pos}
use opencode_proxy.Text.{codes, text_eq, trim_space}
use opencode_proxy.Text.Maps.{lookup, put}
use opencode_proxy.Time.{minutes}
use opencode_proxy.Proxy.Json.{null}
use opencode_proxy.Identity.{DiskState, written, client, client_name, authenticate_proxy}
use opencode_proxy.Identity.Opening.{load_cipher, open_manager, stored_of, running}
use opencode_proxy.Api.Sessions.{create, valid}
use opencode_proxy.Api.Gates.{AdminRequest, admin_auth, same_origin, is_safe_method}
use opencode_proxy.Api.Server.{Backend, Visit, Server, Url}
use opencode_proxy.Api.Import.{ImportInput, import_loop, nothing_imported}
use opencode_proxy.Api.Import.Tally.{IsTallied, import_loop-IsTallied}
use opencode_proxy.Api.Clients.{enrollment_name, normalize_client_base_url}
use opencode_proxy.Api.Pairing.{handle-pairing}
use opencode_proxy.Api.Router.{
  AdminRoute, PublicRoute, open_to_all, for_admin, Request, handle, serve_all,
}
use opencode_proxy.Api.Moves.Sound.{IsSound, serve_all-IsSound}
use opencode_proxy.Api.Sealed.Anonymous.{IsKept, handle-IsKept}
use opencode_proxy.Examples.{env, world, two_keys-IsConsistent}
use opencode_proxy.Examples.Startup.{plain, long_key, hashing}
use opencode_proxy.Examples.Access.{first}

abbrev origin : Url
origin = record {
  scheme = codes "http";
  host = codes "localhost:8080";
  has_user = false;
  path = [];
  raw_query = [];
  fragment = [];
}

abbrev pub backend : Backend
backend = record {
  env = env;
  hashing = hashing;
  encode = λ a. null;
  fingerprint_of = plain;
  encrypt = λ t. some t;
  ticket_hash = plain;
  session_cookie = λ token tls. token;
  expired_cookie = [];
  parse_url = λ t. some origin;
  url_text = λ u. u.scheme ++ (codes "://" ++ u.host);
  install_script = λ shell. codes "install";
}

abbrev state : DiskState
state = record first { master_key = long_key }

abbrev console : AdminRequest
console = record {
  method = codes "POST";
  cookie = some (codes "aa");
  header = [];
  host = codes "localhost:8080";
}

abbrev visit : Visit
visit = record {
  request = console;
  is_tls = false;
  persist = written;
  session_token = codes "bb";
  ticket = codes "t1";
  access_key = codes "opm_2";
  master_key = long_key;
  client_id = codes "id1";
  client_token = codes "opc_1";
}

abbrev server : Server
server = record {
  world = world;
  identity = record { state = some state; file = some state };
  sessions = create (codes "aa") world.clock [];
  tickets = [];
}

server-IsSound : IsSound backend server
unfolding load_cipher
server-IsSound = record {
  consistent = two_keys-IsConsistent;
  durable = (refl, refl);
  bounded = omega arith;
}

abbrev day : List Request
day =
    record { elapsed = 5; visit = visit; route = for_admin (AdminRoute.delete_key (codes "1")) }
    ∷ record {
      elapsed = 7;
      visit = visit;
      route = for_admin (AdminRoute.post_client_tokens (some (codes "desk")));
    }
    ∷ []

serve_all-IsSound_example :
    IsSound backend (serve_all backend day server)
    × ((d : DiskState)
        → (serve_all backend day server).identity.state ≡ some d
        → (open_manager hashing written
            (record { master_key = []; admin_password = []; proxy_token = [] })
            9
            (stored_of (serve_all backend day server).identity.file)).0
          ≡ running (serve_all backend day server).identity)
serve_all-IsSound_example =
    serve_all-IsSound backend day server written
      (record { master_key = []; admin_password = []; proxy_token = [] }) 9
      ((refl, (λ e. cc)), ((refl, (λ e. cc)), tt)) server-IsSound

abbrev stranger : Visit
stranger = record visit { request = record console { cookie = none } }

handle-IsKept_example :
    IsKept server (handle backend 5 stranger (for_admin (AdminRoute.delete_key (codes "1"))) server)
unfolding admin_auth
handle-IsKept_example =
    handle-IsKept backend 5 stranger (for_admin (AdminRoute.delete_key (codes "1"))) server
      (λ e. cc)

handle-pairing_example :
    let created =
      handle backend 5 visit
        (for_admin (AdminRoute.post_client_enrollments (some (codes "desk"))))
        server in
    let paired =
      handle backend
        (minutes 3)
        visit
        (open_to_all (PublicRoute.post_enroll (some (codes "t1", codes "http://localhost:8080"))))
        created in
    authenticate_proxy hashing (codes "opc_1") paired.identity
    ≡ some (client (codes "id1") (client_name hashing (enrollment_name (codes "desk"))))
unfolding admin_auth trim_space normalize_client_base_url text_eq valid create same_origin
    is_safe_method lookup put
handle-pairing_example =
    handle-pairing backend visit visit (codes "desk") (codes "http://localhost:8080")
      (codes "http://localhost:8080") state 5 (minutes 3) server refl refl refl (omega arith) refl
      refl refl refl (refl, tt)

abbrev imported_keys : ImportInput
imported_keys = record {
  keys = codes "sk-a" ∷ codes "sk-a" ∷ codes " " ∷ [];
  name_prefix = codes "pool";
  priority = pos 10;
  validate = false;
  test_inference = false;
}

import_loop-IsTallied_example :
    let i = import_loop backend imported_keys 0 imported_keys.keys (nothing_imported server) in
    IsTallied 3 i × (i.imported_count + (i.duplicates + i.failures) ≡ 3)
import_loop-IsTallied_example =
    import_loop-IsTallied backend imported_keys imported_keys.keys server
