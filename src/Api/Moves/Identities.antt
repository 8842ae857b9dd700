-- ===== src/Api/Moves/Identities.antt =====
-- The handlers of the setup, of the access key, of client tokens and of enrolment move the shared
-- state as `Moves` says.
use opencode_proxy.Base.{◌≡◌, ◌≢◌, refl, true, not, Option, none, some}
use opencode_proxy.Text.{Text, codes}
use opencode_proxy.Store.Steps.{here}
use opencode_proxy.Proxy.World.{set_header}
use opencode_proxy.Identity.{
  Instance, written_unreadable, Outcome, done, refused, already_initialized, Secrets, initialize,
  rotate_access_key,
}
use opencode_proxy.Identity.Rollback.{IsBounded, initialize-IsAtomic, rotate-IsAtomic}
use opencode_proxy.Identity.Opening.{is_initialized, is_master_key}
use opencode_proxy.Identity.Restart.{IsDurable, initialize-IsDurable, rotate-IsDurable}
use opencode_proxy.Api.Gates.{same_origin}
use opencode_proxy.Api.Server.{Backend, Visit, Server, no_store, not_found_page}
use opencode_proxy.Api.Account.{
  open_session, setup_status, setup_result, setup_initialize, is_password, login, without_session,
  logout, access_key_status, access_key_result, change_access_key,
}
use opencode_proxy.Api.Clients.{with_identity}
use opencode_proxy.Api.Moves.{
  Moves, Moves-refl, Moves-trans, reply-Moves, if-Moves, header-Moves, write_text-Moves,
}

module _ (b : Backend) (v : Visit) where
  abbrev M : Server → Server → Type 0
  M s t = Moves b v.persist s t

  pub identity-Moves :
      (s : Server) (i : Instance)
      → (v.persist ≢ written_unreadable → IsDurable b.hashing s.identity → IsDurable b.hashing i)
      → (IsBounded s.identity.state → IsBounded i.state)
      → M s (with_identity i s)
  identity-Moves s i d c = record { reach = here; durable = d; bounded = c }

  pub no_store-Moves : (s : Server) → M s (no_store s)
  no_store-Moves s = header-Moves (codes "Cache-Control") (codes "no-store") s

  pub same-Moves : (s t : Server) → t.world ≡ s.world → t.identity ≡ s.identity → M s t
  same-Moves s t e f = rw (e, f) (record { reach = here; durable = λ w d. d; bounded = λ c. c })

  open_session-Moves : (s : Server) → M s (open_session b v s)
  open_session-Moves s = Moves-trans (same-Moves s _ refl refl) (header-Moves _ _ _)

  not_found-Moves : (s : Server) → M s (not_found_page b s)
  not_found-Moves s =
      Moves-trans (Moves-trans (header-Moves _ _ s) (header-Moves _ _ _)) (write_text-Moves 404 _ _)

  pub setup_status-Moves : (s : Server) → M s (setup_status b s)
  unfolding setup_status
  setup_status-Moves s = Moves-trans (no_store-Moves s) (reply-Moves _ _ (no_store s))

  setup_result-Moves : (r : Outcome Secrets) (s : Server) → M s (setup_result b v r s)
  setup_result-Moves (done x) s = Moves-trans (open_session-Moves s) (reply-Moves _ _ _)
  setup_result-Moves (refused already_initialized) s = not_found-Moves s
  setup_result-Moves (refused _) s = reply-Moves _ _ s

  pub setup_initialize-Moves :
      is_master_key (b.hashing.unbase64_padded v.master_key) ≡ true
      → (s : Server) → M s (setup_initialize b v s)
  unfolding setup_initialize set_header
  setup_initialize-Moves m s =
      if-Moves (is_initialized s.identity) s _ _
        (Moves-trans (no_store-Moves s) (not_found-Moves (no_store s)))
        (if-Moves (not (same_origin v.request)) s _ _
          (Moves-trans (no_store-Moves s) (reply-Moves _ _ (no_store s)))
          (Moves-trans (no_store-Moves s) (
            Moves-trans
              (identity-Moves (no_store s) new.1
                (λ w d.
                  initialize-IsDurable b.hashing v.persist w s.world.clock s.identity d v.master_key
                    v.access_key m)
                (initialize-IsAtomic b.hashing v.persist s.world.clock s.identity v.master_key
                  v.access_key).bounded)
              (setup_result-Moves new.0 (with_identity new.1 (no_store s))))))
    where
      new : Outcome Secrets × Instance
      new =
          initialize b.hashing v.persist v.master_key v.access_key (no_store s).world.clock
            s.identity

  pub login-Moves : (password : Option Text) (s : Server) → M s (login b v password s)
  unfolding login
  login-Moves password s = if-Moves (not (is_initialized s.identity)) s _ _ (reply-Moves _ _ s) (
      if-Moves (is_password b password s.identity) s _ _
        (Moves-trans (open_session-Moves s) (reply-Moves _ _ _)) (reply-Moves _ _ s))

  pub logout-Moves : (s : Server) → M s (logout b v s)
  unfolding logout
  logout-Moves s =
      Moves-trans (without v.request.cookie)
        (Moves-trans (header-Moves _ _ (without_session v.request.cookie s)) (reply-Moves _ _ _))
    where
      without : (c : Option Text) → M s (without_session c s)
      without none = Moves-refl s
      without (some token) = same-Moves s _ refl refl

  pub access_key_status-Moves : (s : Server) → M s (access_key_status b s)
  unfolding access_key_status
  access_key_status-Moves s = reply-Moves _ _ s

  access_key_result-Moves : (r : Outcome Text) (s : Server) → M s (access_key_result b v r s)
  access_key_result-Moves (refused e) s = reply-Moves _ _ s
  access_key_result-Moves (done k) s =
      Moves-trans (same-Moves s _ refl refl)
        (Moves-trans (open_session-Moves _) (reply-Moves _ _ _))

  pub change_access_key-Moves : (r : Option Text) (s : Server) → M s (change_access_key b v r s)
  unfolding change_access_key set_header
  change_access_key-Moves none s = Moves-trans (no_store-Moves s) (reply-Moves _ _ (no_store s))
  change_access_key-Moves (some r) s = Moves-trans (no_store-Moves s) (
      Moves-trans
        (identity-Moves (no_store s) new.1
          (λ w d. rotate-IsDurable b.hashing v.persist w s.world.clock s.identity d r v.access_key)
          (rotate-IsAtomic b.hashing v.persist s.world.clock s.identity r v.access_key).bounded)
        (access_key_result-Moves new.0 (with_identity new.1 (no_store s))))
    where
      new : Outcome Text × Instance
      new = rotate_access_key b.hashing v.persist r v.access_key (no_store s).world.clock s.identity
