-- ===== src/Examples/Keys.antt =====
-- The properties of the model catalog, of the tests of keys and of the scheduler at the two keys.
use opencode_proxy.Base.{All, ◌≡◌, refl, ◌⊎◌, true, [], ◌∷◌, ◌++◌, none, some}
use opencode_proxy.Text.{codes}
use opencode_proxy.Store.Types.{ModelCacheRow, ok, openai, anthropic}
use opencode_proxy.Store.Routing.{auth_valid_keys, list_keys}
use opencode_proxy.Store.Telemetry.{get_settings, model_cache}
use opencode_proxy.Proxy.World.{World, upstream_request, do_request}
use opencode_proxy.Proxy.Request.{read_all_limited}
use opencode_proxy.Proxy.Classifier.{classify, is_quota_message, extract_message}
use opencode_proxy.Proxy.Classifier.Kinds.{KindHolds, DetailsHold, classify_lem}
use opencode_proxy.Proxy.Reset.{parse_reset}
use opencode_proxy.Proxy.Regex.{match_string}
use opencode_proxy.Proxy.Patterns.{quota_pattern}
use opencode_proxy.Proxy.Header.Entries.{Only, Lacks}
use opencode_proxy.Proxy.Header.Privacy.{
  ApiKeyIs, kept_back, authorization, upstream_request-ApiKeyIs,
}
use opencode_proxy.Proxy.Header.{get}
use opencode_proxy.Proxy.Inference.{
  Call, Loop, Verdict, go_on, stop, try_key, try_reply, try_body, is_event_stream, no_loop,
  prepared, new_record,
}
use opencode_proxy.Proxy.Failover.Calls.{Serves}
use opencode_proxy.Proxy.Failover.Decisions.{IsRefused, try_key-GoesOn}
use opencode_proxy.Proxy.Models.{handle_models, is_fresh}
use opencode_proxy.Proxy.Models.Serving.{AskedForModels, handle_models-Serves}
use opencode_proxy.Proxy.Probe.Rows.{RowHolds}
use opencode_proxy.Proxy.Probe.Calls.{Probes}
use opencode_proxy.Scheduler.{run}
use opencode_proxy.Scheduler.Selecting.{IsProbed, listing_db, run-Probes}
use opencode_proxy.Examples.{no_json, first_key, two_keys, env, incoming, world, later}

handle_models-Serves_example :
    Serves (AskedForModels env) ⊥ (auth_valid_keys world.db) world (handle_models env world)
handle_models-Serves_example = handle_models-Serves env world

abbrev cached : ModelCacheRow
cached = record { body = codes "[]"; fetched_at = later; source_key_id = some 1 }

abbrev cached_world : World
cached_world = record world { db = record two_keys { model_cache = some cached } }

cached_found : model_cache cached_world.db ≡ ok cached
unfolding model_cache
cached_found = refl

cached_fresh : is_fresh (get_settings cached_world.db) cached cached_world.clock ≡ true
unfolding is_fresh get_settings
cached_fresh = refl

run-Probes_example :
    Probes
      (IsProbed (get_settings (listing_db world)) world.clock (list_keys (listing_db world)))
      world
      (run env 1000 world)
run-Probes_example = run-Probes env 1000 world

upstream_request-ApiKeyIs_example :
    let r = upstream_request env incoming.header [] anthropic [] (codes "sk-one") in
    Only authorization ((codes "Bearer " ++ codes "sk-one") ∷ []) r.header
    × (get authorization r.header ≡ codes "Bearer " ++ codes "sk-one")
    × ApiKeyIs anthropic (codes "sk-one") r.header
    × All (λ name. Lacks name r.header) kept_back
upstream_request-ApiKeyIs_example =
    upstream_request-ApiKeyIs env incoming.header [] anthropic [] (codes "sk-one")

abbrev call : Call
call = prepared env openai incoming (codes "r1") [] world

abbrev loop : Loop
loop = no_loop (new_record call) world

abbrev loop_of : Verdict → Loop
loop_of (go_on l) = l
loop_of (stop w) = loop

-- The loop behind the first key, whose quota is used up.
abbrev next_loop : Loop
next_loop = loop_of (try_key env call first_key 1 loop)

first_refused : try_key env call first_key 1 loop ≡ go_on next_loop
unfolding try_key try_reply do_request is_event_stream try_body read_all_limited classify
    is_quota_message match_string quota_pattern
first_refused = refl

try_key-GoesOn_example :
    ((env.decrypt first_key.encrypted_key ≡ none) × (next_loop ≡ loop))
    ⊎ RowHolds IsRefused first_key.id next_loop.world.db
try_key-GoesOn_example = try_key-GoesOn env call first_key 1 loop next_loop first_refused

classify_lem_example :
    let c = classify no_json 200 [] (codes "quota exceeded") later in
    let m = extract_message no_json (codes "quota exceeded") in
    KindHolds 200 m c.kind × DetailsHold (parse_reset no_json [] m later) c × (c.message ≡ m)
classify_lem_example = classify_lem no_json 200 [] (codes "quota exceeded") later
