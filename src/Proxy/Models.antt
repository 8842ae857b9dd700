-- ===== src/Proxy/Models.antt =====
-- `HandleModels` of internal/proxy/service.go: the model catalog, from the cache while it is fresh,
-- else from the upstream with one key after another, else from the cache although it is stale.
pub mod Serving
use opencode_proxy.Base.{
  ℕ, ◌*◌, ◌^◌, Bool, ◌&&◌, List, [], ◌∷◌, ◌++◌, Option, none, some, leb, ltb, if◌then◌else◌,
}
use opencode_proxy.Base.Int.{sub_ℕ, ltb_ℤ}
use opencode_proxy.Text.{Text, codes}
use opencode_proxy.Time.{Time}
use opencode_proxy.Store.Types.{
  Key, Settings, ModelCacheRow, Result, ok, err, after, ErrorKind, AuthState, ControlState,
}
use opencode_proxy.Store.Keys.{mark_checked, mark_invalid}
use opencode_proxy.Store.Telemetry.{get_settings, model_cache, save_model_cache}
use opencode_proxy.Store.Routing.{auth_valid_keys}
use opencode_proxy.Proxy.Header.{set, copy_response_headers}
use opencode_proxy.Proxy.Reset.{seconds_duration}
use opencode_proxy.Proxy.Classifier.{Classification, classify}
use opencode_proxy.Proxy.Request.{read_all_limited}
use opencode_proxy.Proxy.World.{
  Env, World, Response, UpstreamRequest, set_header, write_header, write, write_json, error_body,
  pass, do_request, trim_slashes,
}
use opencode_proxy.Proxy.Inference.{with_db}

abbrev pub is_success : ℕ → Bool
is_success status = leb 200 status && ltb status 300

-- `GET <base>/models`.
unfoldable pub models_request : Env → Text → UpstreamRequest
unfolding trim_slashes set
models_request env secret = record {
  url = trim_slashes env.upstream_base_url ++ codes "/models";
  query = [];
  header = set (codes "Authorization") (codes "Bearer " ++ secret) [];
  body = [];
}

-- `time.Since(fetched) < time.Duration(settings.ModelsCacheSec)*time.Second`.
unfoldable pub is_fresh : Settings → ModelCacheRow → Time → Bool
is_fresh settings row now =
    ltb_ℤ (sub_ℕ now row.fetched_at) (seconds_duration settings.models_cache_sec)

abbrev pub cache_header : Text
cache_header = codes "X-OpencodeProxy-Models-Cache"

-- A first write without a status line sends the status 200.
unfoldable pub serve_fresh : Env → Text → World → World
serve_fresh env body w =
    let typed = set_header (codes "Content-Type") (codes "application/json") w in
    (write env body (write_header 200 (set_header cache_header (codes "hit") typed))).0

unfoldable pub serve_stale : Env → Text → World → World
serve_stale env body w =
    let typed = set_header (codes "Content-Type") (codes "application/json") w in
    let warned = set_header (codes "Warning") (codes "110 - \"stale model catalog\"") typed in
    (write env body (write_header 200 (set_header cache_header (codes "stale") warned))).0

-- Behind the loop: no key has brought the catalog.
abbrev pub stale_or_none : Env → World → Result ModelCacheRow → World
stale_or_none env w (ok row) = serve_stale env row.body w
stale_or_none env w (err e) =
    write_json env 503 (error_body (codes "Model catalog is unavailable") "models_unavailable") w

unfoldable pub catalog_missed : Env → World → World
catalog_missed env w = stale_or_none env w (model_cache w.db)

-- A round of the loop goes on or has answered.
pub data Fetch : Type 0 where
  missed : World → Fetch
  served : World → Fetch

abbrev pub catalog_saved : Key → Response → Text → World → World
catalog_saved key resp body w =
    let checked =
      with_db (mark_checked key.id AuthState.valid ControlState.reachable none [] w.clock w.db) w in
    let saved =
      with_db (after checked.db (save_model_cache body key.id w.clock checked.db)) checked in
    record saved { header = copy_response_headers saved.header resp.header }

unfoldable pub catalog_found : Env → Key → Response → Text → World → World
catalog_found env key resp body w =
    (write env body (
      write_header resp.status
        (set_header cache_header (codes "miss") (catalog_saved key resp body w)))).0

unfoldable pub mark_refused : Key → Classification → World → World
mark_refused key c w = elim c.kind [
  | ErrorKind.auth ↦ with_db (mark_invalid key.id c.message w.clock w.db) w
  | _ ↦ w
]

-- The limit of the read, `16<<20`.
abbrev pub catalog_limit : ℕ
catalog_limit = 16 * 2 ^ 20

abbrev pub catalog_of_body : Env → Key → Response → World → Option Text → Fetch
catalog_of_body env key resp w none = missed w
catalog_of_body env key resp w (some body) =
    if is_success resp.status
    then served (catalog_found env key resp body w)
    else missed (mark_refused key (classify env.codec resp.status resp.header body w.clock) w)

unfoldable pub catalog_of_reply : Env → Key → World → Option Response → Fetch
catalog_of_reply env key w none = missed w
catalog_of_reply env key w (some resp) =
    catalog_of_body env key resp (pass resp.transfer w) (read_all_limited catalog_limit resp.body)

abbrev pub fetch_with : Env → Key → World → Option Text → Fetch
fetch_with env key w none = missed w
fetch_with env key w (some secret) =
    let (called, reply) = do_request env key.id (models_request env secret) w in
    catalog_of_reply env key called reply

unfoldable pub fetch_catalog : Env → List Key → World → World
fetch_catalog env [] w = catalog_missed env w
fetch_catalog env (key ∷ keys) w = elim (fetch_with env key w (env.decrypt key.encrypted_key)) [
  | missed v ↦ fetch_catalog env keys v
  | served v ↦ v
]

abbrev pub fresh_or_fetched : Env → World → Result ModelCacheRow → World
fresh_or_fetched env w (err e) = fetch_catalog env (auth_valid_keys w.db) w
fresh_or_fetched env w (ok row) =
    if is_fresh (get_settings w.db) row w.clock
    then serve_fresh env row.body w
    else fetch_catalog env (auth_valid_keys w.db) w

unfoldable pub handle_models : Env → World → World
handle_models env w = fresh_or_fetched env w (model_cache w.db)
