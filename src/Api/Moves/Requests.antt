-- ===== src/Api/Moves/Requests.antt =====
-- A request moves the shared state as `Moves` says, whatever its route is.
use opencode_proxy.Base.{ℕ, zero, suc, ◌≡◌, refl, Bool, true, false, Option, none, some, is_some}
use opencode_proxy.Text.{Text}
use opencode_proxy.Store.Types.{Protocol}
use opencode_proxy.Store.Steps.{Reach, here}
use opencode_proxy.Proxy.World.{World, Incoming, set_header}
use opencode_proxy.Proxy.Failover.Answers.{write_json-Answers}
use opencode_proxy.Proxy.Failover.Requests.{handle_inference-Reach}
use opencode_proxy.Proxy.Models.Serving.{handle_models-Serves}
use opencode_proxy.Identity.{Principal}
use opencode_proxy.Identity.Opening.{is_master_key}
use opencode_proxy.Api.Gates.{
  Gate, setup_required, unauthenticated, cross_origin, admitted, proxy_auth, if_ready, on_behalf_of,
}
use opencode_proxy.Api.Server.{Backend, Visit, Server}
use opencode_proxy.Api.Pool.{list_all_keys}
use opencode_proxy.Api.Overview.{
  show_settings, update_settings_handler, settings_answer, show_requests, show_dashboard,
  client_dashboard, ticks, events,
}
use opencode_proxy.Api.Keys.{
  AdminReply, accepted, missing, invalid_request, conflict, server_failure, change_settings,
}
use opencode_proxy.Api.Keys.Console.{change_settings-Reach}
use opencode_proxy.Api.Router.{
  AdminRoute, PublicRoute, Route, open_to_all, for_admin, models, inference, serve_admin,
  serve_public, gated, through_admin_auth, models_for, proxy_auth_models, routed, security_headers,
  handle,
}
use opencode_proxy.Api.Moves.{
  Moves, Moves-refl, Moves-trans, Moves-of_Reach, reply-Moves, header-Moves, write_text-Moves,
  write_more-Moves,
}
use opencode_proxy.Api.Moves.Pool.{
  create_key-Moves, update_key-Moves, delete_key-Moves, activate_key-Moves, test_key-Moves,
  db-Moves,
}
use opencode_proxy.Api.Moves.Import.{import_keys-Moves}
use opencode_proxy.Api.Moves.Identities.{
  same-Moves, setup_status-Moves, setup_initialize-Moves, login-Moves, logout-Moves,
  access_key_status-Moves, change_access_key-Moves,
}
use opencode_proxy.Api.Moves.Clients.{
  client_install-Moves, client_enroll-Moves, create_enrollment-Moves, list_tokens-Moves,
  create_token-Moves, rename_token-Moves, revoke_token-Moves,
}
use opencode_proxy.Store.Types.{Settings}

module _ (b : Backend) (v : Visit) where
  abbrev M : Server → Server → Type 0
  M s t = Moves b v.persist s t

  settings_answer-Moves :
      (input : Option Settings) (a : AdminReply) (s : Server) → M s (settings_answer b input a s)
  settings_answer-Moves none a s = reply-Moves _ _ s
  settings_answer-Moves (some x) accepted s = reply-Moves _ _ s
  settings_answer-Moves (some x) missing s = reply-Moves _ _ s
  settings_answer-Moves (some x) invalid_request s = reply-Moves _ _ s
  settings_answer-Moves (some x) conflict s = reply-Moves _ _ s
  settings_answer-Moves (some x) server_failure s = reply-Moves _ _ s

  put_settings-Moves :
      (input : Option Settings) (s : Server) → M s (update_settings_handler b input s)
  unfolding update_settings_handler
  put_settings-Moves input s =
      let r = change_settings input s.world.db in
      Moves-trans (db-Moves b s r.1 (change_settings-Reach input s.world.db))
        (settings_answer-Moves input r.0 _)

  ticks-Moves : (n : ℕ) (s : Server) → M s (ticks b n s)
  unfolding ticks
  ticks-Moves zero s = Moves-refl s
  ticks-Moves (suc n) s = Moves-trans (write_more-Moves _ s) (ticks-Moves n _)

  events-Moves : (n : ℕ) (s : Server) → M s (events b n s)
  unfolding events
  events-Moves n s =
      Moves-trans (Moves-trans (header-Moves _ _ s) (header-Moves _ _ _))
        (Moves-trans (write_text-Moves 200 _ _) (ticks-Moves n _))

  serve_admin-Moves : (r : AdminRoute) (s : Server) → M s (serve_admin b v r s)
  unfolding serve_admin show_settings show_requests show_dashboard client_dashboard list_all_keys
  serve_admin-Moves AdminRoute.get_me s = reply-Moves _ _ s
  serve_admin-Moves AdminRoute.post_logout s = logout-Moves b v s
  serve_admin-Moves AdminRoute.get_keys s = reply-Moves _ _ s
  serve_admin-Moves (AdminRoute.post_keys input) s = create_key-Moves b input s
  serve_admin-Moves (AdminRoute.post_keys_import input) s = import_keys-Moves b input s
  serve_admin-Moves (AdminRoute.patch_key id input) s = update_key-Moves b id input s
  serve_admin-Moves (AdminRoute.delete_key id) s = delete_key-Moves b id s
  serve_admin-Moves (AdminRoute.post_key_activate id) s = activate_key-Moves b id s
  serve_admin-Moves (AdminRoute.post_key_test id with_it) s = test_key-Moves b id with_it s
  serve_admin-Moves AdminRoute.get_settings s = reply-Moves _ _ s
  serve_admin-Moves (AdminRoute.put_settings input) s = put_settings-Moves input s
  serve_admin-Moves AdminRoute.get_access_key s = access_key_status-Moves b v s
  serve_admin-Moves (AdminRoute.put_access_key input) s = change_access_key-Moves b v input s
  serve_admin-Moves AdminRoute.get_client_tokens s = list_tokens-Moves b v s
  serve_admin-Moves (AdminRoute.post_client_tokens input) s = create_token-Moves b v input s
  serve_admin-Moves (AdminRoute.patch_client_token id input) s = rename_token-Moves b v id input s
  serve_admin-Moves (AdminRoute.post_client_enrollments input) s =
      create_enrollment-Moves b v input s
  serve_admin-Moves (AdminRoute.delete_client_token id) s = revoke_token-Moves b v id s
  serve_admin-Moves (AdminRoute.get_client_dashboard window) s = reply-Moves _ _ s
  serve_admin-Moves (AdminRoute.get_requests limit key_id model) s = reply-Moves _ _ s
  serve_admin-Moves (AdminRoute.get_dashboard window) s = reply-Moves _ _ s
  serve_admin-Moves (AdminRoute.get_stream n) s = events-Moves n s

  serve_public-Moves :
      is_master_key (b.hashing.unbase64_padded v.master_key) ≡ true
      → (r : PublicRoute) (s : Server) → M s (serve_public b v r s)
  unfolding serve_public
  serve_public-Moves m PublicRoute.get_live s = reply-Moves _ _ s
  serve_public-Moves m PublicRoute.get_ready s = reply-Moves _ _ s
  serve_public-Moves m PublicRoute.get_setup_status s = setup_status-Moves b v s
  serve_public-Moves m PublicRoute.post_setup_initialize s = setup_initialize-Moves b v m s
  serve_public-Moves m (PublicRoute.get_install power_shell) s =
      client_install-Moves b v power_shell s
  serve_public-Moves m (PublicRoute.post_enroll input) s = client_enroll-Moves b v input s
  serve_public-Moves m (PublicRoute.post_login password) s = login-Moves b v password s

  gated-Moves : (r : AdminRoute) (g : Gate) (s : Server) → M s (gated b v r g s)
  gated-Moves r setup_required s = reply-Moves _ _ s
  gated-Moves r unauthenticated s = reply-Moves _ _ s
  gated-Moves r cross_origin s = reply-Moves _ _ s
  gated-Moves r admitted s = serve_admin-Moves r s

  models_for-Reach :
      (ready : Bool) (p : Option Principal) (w : World) → Reach w.db (models_for b.env ready p w).db
  models_for-Reach false p w = (write_json-Answers b.env 503 _ w).reach
  models_for-Reach true none w = (write_json-Answers b.env 401 _ w).reach
  models_for-Reach true (some p) w = (handle_models-Serves b.env w).reach

  if_ready-Reach :
      (p : Option Principal) (protocol : Protocol) (r : Incoming) (id : Text) (w : World)
      (ready : Bool)
      → Reach w.db (if_ready b.env p protocol r id w ready).db
  if_ready-Reach p protocol r id w false = (write_json-Answers b.env 503 _ w).reach
  if_ready-Reach none protocol r id w true = (write_json-Answers b.env 401 _ w).reach
  if_ready-Reach (some p) protocol r id w true =
      handle_inference-Reach b.env protocol (on_behalf_of p r) id w

  routed-Moves :
      is_master_key (b.hashing.unbase64_padded v.master_key) ≡ true
      → (r : Route) (s : Server) → M s (routed b v r s)
  unfolding through_admin_auth proxy_auth_models proxy_auth
  routed-Moves m (open_to_all r) s = serve_public-Moves m r s
  routed-Moves m (for_admin r) s = Moves-trans (same-Moves b v s _ refl refl) (gated-Moves r _ _)
  routed-Moves m (models header) s =
      Moves-of_Reach s _ (models_for-Reach (is_some s.identity.state) _ s.world)
  routed-Moves m (inference protocol incoming id) s =
      Moves-of_Reach s _ (if_ready-Reach _ protocol incoming id s.world (is_some s.identity.state))

  pub handle-Moves :
      (elapsed : ℕ) (r : Route) (s : Server)
      → is_master_key (b.hashing.unbase64_padded v.master_key) ≡ true
      → M s (handle b elapsed v r s)
  unfolding handle security_headers set_header
  handle-Moves elapsed r s m = Moves-trans (Moves-of_Reach s _ here) (routed-Moves m r _)
