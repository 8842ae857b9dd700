-- ===== src/Proxy/Models/Serving.antt =====
-- What `HandleModels` of internal/proxy/service.go does: which calls it makes, and what it answers.
use opencode_proxy.Base.{
  ℕ, ◌≡◌, refl, sym, subst, inr, Bool, true, false, List, [], ◌∷◌, ◌++◌, Option, none, some,
  if◌then◌else◌,
}
use opencode_proxy.Text.{Text}
use opencode_proxy.Store.Types.{Key, ErrorKind, ModelCacheRow, Result, ok, err}
use opencode_proxy.Store.Telemetry.{get_settings, model_cache}
use opencode_proxy.Store.Routing.{auth_valid_keys}
use opencode_proxy.Store.Steps.{here, next, check, cache, invalidate}
use opencode_proxy.Proxy.Classifier.{Classification}
use opencode_proxy.Proxy.World.{
  Env, World, Response, UpstreamRequest, called, do_request, pass, write, write_header, set_header,
}
use opencode_proxy.Proxy.Request.{read_all_limited}
use opencode_proxy.Proxy.Models.{
  Fetch, missed, served, models_request, is_fresh, serve_fresh, serve_stale, stale_or_none,
  catalog_missed, catalog_found, catalog_saved, fresh_or_fetched, mark_refused, catalog_of_body,
  catalog_of_reply, fetch_with, fetch_catalog, handle_models, is_success, catalog_limit,
}
use opencode_proxy.Proxy.Failover.Answers.{
  Quiet, Answers, Replies, Quiet-refl, Quiet-trans, Answers-after, Answers-then,
  write_header-Answers, write-Sends, write_json-Answers, set_header-Quiet, written-Replies,
}
use opencode_proxy.Proxy.Failover.Calls.{
  Serves, Serves-of_Closes, Serves-after, Serves-passed, Serves-placed,
}

written-Answers :
    (env : Env) (body : Text) (status : ℕ) (u w : World)
    → Quiet u w
    → Answers u (write env body (write_header status w)).0
written-Answers env body status u w q =
    Answers-after q (Answers-then (write_header-Answers status w) (write-Sends env body _))

serve_fresh-Answers : (env : Env) (body : Text) (w : World) → Answers w (serve_fresh env body w)
unfolding serve_fresh
serve_fresh-Answers env body w =
    written-Answers env body 200 w _ (Quiet-trans (set_header-Quiet _ _ w) (set_header-Quiet _ _ _))

serve_fresh-Replies : (env : Env) (body : Text) (w : World) → Replies 200 w (serve_fresh env body w)
unfolding serve_fresh set_header
serve_fresh-Replies env body w = written-Replies env body 200 w _ refl refl

serve_stale-Answers : (env : Env) (body : Text) (w : World) → Answers w (serve_stale env body w)
unfolding serve_stale
serve_stale-Answers env body w = written-Answers env body 200 w _ (
    Quiet-trans (Quiet-trans (set_header-Quiet _ _ w) (set_header-Quiet _ _ _))
      (set_header-Quiet _ _ _))

missed-Answers :
    (env : Env) (w : World) (r : Result ModelCacheRow) → Answers w (stale_or_none env w r)
missed-Answers env w (ok row) = serve_stale-Answers env row.body w
missed-Answers env w (err x) = write_json-Answers env 503 _ w

catalog_missed-Answers : (env : Env) (w : World) → Answers w (catalog_missed env w)
unfolding catalog_missed
catalog_missed-Answers env w = missed-Answers env w (model_cache w.db)

catalog_saved-Quiet :
    (key : Key) (resp : Response) (body : Text) (w : World)
    → Quiet w (catalog_saved key resp body w)
catalog_saved-Quiet key resp body w = record {
  reach = next (next here (check key.id _ _ [] w.clock)) (cache body key.id w.clock);
  same = refl;
}

catalog_found-Answers :
    (env : Env) (key : Key) (resp : Response) (body : Text) (w : World)
    → Answers w (catalog_found env key resp body w)
unfolding catalog_found
catalog_found-Answers env key resp body w =
    written-Answers env body resp.status w _
      (Quiet-trans (catalog_saved-Quiet key resp body w) (set_header-Quiet _ _ _))

pub refused-Quiet :
    (k : ErrorKind) (key : Key) (c : Classification) (w : World)
    → c.kind ≡ k
    → Quiet w (mark_refused key c w)
unfolding mark_refused
refused-Quiet ErrorKind.auth key c w e =
    rw e (record { reach = next here (invalidate key.id c.message w.clock); same = refl })
refused-Quiet _ key c w e = rw e (Quiet-refl w)

-- What is left of a round behind its call.
abbrev Fetches : World → Fetch → Type 0
Fetches w (missed v) = Quiet w v
Fetches w (served v) = Answers w v

Fetches-if :
    (b : Bool) (w u v : World)
    → Answers w u
    → Quiet w v
    → Fetches w (if b then served u else missed v)
Fetches-if true w u v a q = a
Fetches-if false w u v a q = q

body-Fetches :
    (env : Env) (key : Key) (resp : Response) (b : Option Text) (w : World)
    → Fetches w (catalog_of_body env key resp w b)
body-Fetches env key resp none w = Quiet-refl w
body-Fetches env key resp (some body) w =
    Fetches-if (is_success resp.status) w _ _ (catalog_found-Answers env key resp body w)
      (refused-Quiet _ key _ w refl)

passed-Fetches : (d : ℕ) (w : World) (f : Fetch) → Fetches (pass d w) f → Fetches w f
passed-Fetches d w (missed v) q = Quiet-trans (record { reach = here; same = refl }) q
passed-Fetches d w (served v) a = Answers-after (record { reach = here; same = refl }) a

reply-Fetches :
    (env : Env) (key : Key) (reply : Option Response) (w : World)
    → Fetches w (catalog_of_reply env key w reply)
unfolding catalog_of_reply
reply-Fetches env key none w = Quiet-refl w
reply-Fetches env key (some resp) w =
    passed-Fetches resp.transfer w _
      (body-Fetches env key resp (read_all_limited catalog_limit resp.body) _)

-- A call for the catalog has the key's own secret and nothing of the client.
abbrev pub AskedForModels : Env → Key → UpstreamRequest → Type 0
AskedForModels env key req =
    (secret : Text) × (env.decrypt key.encrypted_key ≡ some secret)
    × (req ≡ models_request env secret)

module _ (env : Env) (keys : List Key) (onward : World → World) where
  Fetches-then :
      (key : Key) (u v : World) (req : UpstreamRequest) (f : Fetch)
      → ((x : World) → Serves (AskedForModels env) ⊥ keys x (onward x))
      → AskedForModels env key req
      → v.db ≡ u.db
      → v.log ≡ u.log ++ called key.id req ∷ []
      → Fetches v f
      → Serves (AskedForModels env) ⊥ (key ∷ keys) u (elim f [ missed x ↦ onward x | served x ↦ x ])
  Fetches-then key u v req (missed x) later asked same log q =
      Serves-placed req asked same log (Serves-after q (later x))
  Fetches-then key u v req (served x) later asked same log a =
      Serves-placed req asked same log (Serves-of_Closes keys (inr a))

  round-Serves :
      (key : Key) (w : World) (s : Option Text)
      → ((x : World) → Serves (AskedForModels env) ⊥ keys x (onward x))
      → env.decrypt key.encrypted_key ≡ s
      → Serves
          (AskedForModels env)
          ⊥
          (key ∷ keys)
          w
          (elim (fetch_with env key w s) [ missed x ↦ onward x | served x ↦ x ])
  unfolding do_request
  round-Serves key w none later e = Serves-passed (later w)
  round-Serves key w (some secret) later e =
      Fetches-then key w _ (models_request env secret) _ later (secret, e, refl) refl refl
        (reply-Fetches env key _ _)

fetch_catalog-Serves :
    (env : Env) (keys : List Key) (w : World)
    → Serves (AskedForModels env) ⊥ keys w (fetch_catalog env keys w)
unfolding fetch_catalog
fetch_catalog-Serves env [] w = Serves-of_Closes [] (inr (catalog_missed-Answers env w))
fetch_catalog-Serves env (key ∷ keys) w =
    round-Serves env keys (fetch_catalog env keys) key w (env.decrypt key.encrypted_key)
      (fetch_catalog-Serves env keys) refl

-- The catalog: the upstream is called only with keys of `AuthValidKeys`, in their order and each at
-- most once, with the key's own secret and nothing of the client; behind the last call there is one
-- status line and then only bytes; and the database moves only by steps of the store.
pub handle_models-Serves :
    (env : Env) (w : World)
    → Serves (AskedForModels env) ⊥ (auth_valid_keys w.db) w (handle_models env w)
unfolding handle_models
handle_models-Serves env w = go (model_cache w.db)
  where
    fetched :
        Serves
          (AskedForModels env)
          ⊥
          (auth_valid_keys w.db)
          w
          (fetch_catalog env (auth_valid_keys w.db) w)
    fetched = fetch_catalog-Serves env (auth_valid_keys w.db) w

    fresh_if :
        (b : Bool) (body : Text)
        → Serves
            (AskedForModels env)
            ⊥
            (auth_valid_keys w.db)
            w
            (if b then serve_fresh env body w else fetch_catalog env (auth_valid_keys w.db) w)
    fresh_if true body = Serves-of_Closes _ (inr (serve_fresh-Answers env body w))
    fresh_if false body = fetched

    go :
        (r : Result ModelCacheRow)
        → Serves (AskedForModels env) ⊥ (auth_valid_keys w.db) w (fresh_or_fetched env w r)
    go (err e) = fetched
    go (ok row) = fresh_if (is_fresh (get_settings w.db) row w.clock) row.body

-- A catalog in the cache that is fresh is served with the status 200 and no call of the upstream, and
-- the database is as it was.
pub handle_models-Replies :
    (env : Env) (w : World) (row : ModelCacheRow)
    → model_cache w.db ≡ ok row
    → is_fresh (get_settings w.db) row w.clock ≡ true
    → Replies 200 w (handle_models env w)
unfolding handle_models
handle_models-Replies env w row e f =
    subst (λ r. Replies 200 w (fresh_or_fetched env w r)) (sym e)
      (subst
        (λ b.
          Replies 200 w
            (if b then serve_fresh env row.body w else fetch_catalog env (auth_valid_keys w.db) w))
        (sym f) (serve_fresh-Replies env row.body w))
