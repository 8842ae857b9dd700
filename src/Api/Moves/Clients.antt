-- ===== src/Api/Moves/Clients.antt =====
-- The handlers of client tokens and of enrolment move the shared state as `Moves` says.
use opencode_proxy.Base.{◌≡◌, refl, Bool, ◌||◌, Option, none, some, ltb}
use opencode_proxy.Text.{Text, trim_space}
use opencode_proxy.Store.Steps.{here, next, rename}
use opencode_proxy.Identity.{
  Client, Instance, Outcome, done, refused, not_exist, rename_client_token, revoke_client_token,
}
use opencode_proxy.Identity.Rollback.{issue-IsAtomic, revoke-IsAtomic, rename-IsAtomic}
use opencode_proxy.Identity.Opening.{is_initialized}
use opencode_proxy.Identity.Restart.{issue-IsDurable, revoke-IsDurable, rename-IsDurable}
use opencode_proxy.Api.Enrollments.{Enrollment, consume}
use opencode_proxy.Api.Server.{Backend, Visit, Server, no_store}
use opencode_proxy.Api.Pool.{is_empty}
use opencode_proxy.Api.Clients.{
  client_install, normalize_client_base_url, enrollment_name, create_client_enrollment, with_ticket,
  with_identity, issue_for, enrolled_answer, enroll_named, enroll_at, enroll_decoded, client_enroll,
  list_tokens, issued_answer, create_client_token, renamed_answer, rename_result, rename_token,
  revoked_answer, revoke_token,
}
use opencode_proxy.Api.Moves.{
  Moves, Moves-trans, Moves-of_Reach, reply-Moves, header_status-Moves, if-Moves, header-Moves,
  write_text-Moves,
}
use opencode_proxy.Api.Moves.Identities.{identity-Moves, same-Moves, no_store-Moves}

module _ (b : Backend) (v : Visit) where
  abbrev M : Server → Server → Type 0
  M s t = Moves b v.persist s t

  pub client_install-Moves :
      (power_shell : Bool) (s : Server) → M s (client_install b power_shell s)
  unfolding client_install
  client_install-Moves power_shell s =
      Moves-trans (Moves-trans (header-Moves _ _ s) (header-Moves _ _ _)) (write_text-Moves 200 _ _)

  issue-Moves : (name : Text) (s : Server) → M s (with_identity (issue_for b v name s).1 s)
  issue-Moves name s =
      identity-Moves b v s _
        (λ w d.
          issue-IsDurable b.hashing v.persist w s.world.clock s.identity d name v.client_id
            v.client_token)
        (issue-IsAtomic b.hashing v.persist s.world.clock s.identity name v.client_id
          v.client_token).bounded

  enrolled_answer-Moves :
      (base : Text) (r : Outcome (Client × Text)) (s : Server) → M s (enrolled_answer b base r s)
  enrolled_answer-Moves base (refused e) s = reply-Moves _ _ s
  enrolled_answer-Moves base (done (c, t)) s = reply-Moves _ _ s

  enroll_named-Moves :
      (base : Text) (e : Option Enrollment) (s : Server) → M s (enroll_named b v base e s)
  enroll_named-Moves base none s = reply-Moves _ _ s
  enroll_named-Moves base (some e) s = Moves-trans (issue-Moves e.name s) (
      enrolled_answer-Moves base (issue_for b v e.name s).0
        (with_identity (issue_for b v e.name s).1 s))

  enroll_at-Moves :
      (pairing : Text) (base : Option Text) (s : Server) → M s (enroll_at b v pairing base s)
  enroll_at-Moves pairing none s = reply-Moves _ _ s
  enroll_at-Moves pairing (some base) s = Moves-trans (same-Moves b v s _ refl refl) (
      enroll_named-Moves base (consume b.ticket_hash (trim_space pairing) s.world.clock s.tickets).0
        (record s {
          tickets = (consume b.ticket_hash (trim_space pairing) s.world.clock s.tickets).1;
        }))

  enroll_decoded-Moves :
      (input : Option (Text × Text)) (s : Server) → M s (enroll_decoded b v input s)
  enroll_decoded-Moves none s = reply-Moves _ _ s
  enroll_decoded-Moves (some (pairing, url)) s =
      enroll_at-Moves pairing (normalize_client_base_url b url) s

  pub client_enroll-Moves :
      (input : Option (Text × Text)) (s : Server) → M s (client_enroll b v input s)
  unfolding client_enroll
  client_enroll-Moves input s =
      if-Moves (is_initialized s.identity) s _ _
        (Moves-trans (no_store-Moves b v s) (enroll_decoded-Moves input (no_store s)))
        (Moves-trans (no_store-Moves b v s) (reply-Moves _ _ (no_store s)))

  pub create_enrollment-Moves :
      (name : Option Text) (s : Server) → M s (create_client_enrollment b v name s)
  unfolding create_client_enrollment
  create_enrollment-Moves none s = reply-Moves _ _ s
  create_enrollment-Moves (some name) s =
      if-Moves (ltb 80 (b.hashing.rune_count (enrollment_name name))) s _ _ (reply-Moves _ _ s) (
        Moves-trans (same-Moves b v s (with_ticket b v (enrollment_name name) s) refl refl)
          (Moves-trans (no_store-Moves b v _) (reply-Moves _ _ _)))

  pub list_tokens-Moves : (s : Server) → M s (list_tokens b s)
  unfolding list_tokens
  list_tokens-Moves s = reply-Moves _ _ s

  issued_answer-Moves : (r : Outcome (Client × Text)) (s : Server) → M s (issued_answer b r s)
  issued_answer-Moves (refused e) s = reply-Moves _ _ s
  issued_answer-Moves (done (c, t)) s = Moves-trans (no_store-Moves b v s) (reply-Moves _ _ _)

  pub create_token-Moves : (name : Option Text) (s : Server) → M s (create_client_token b v name s)
  unfolding create_client_token
  create_token-Moves none s = reply-Moves _ _ s
  create_token-Moves (some given) s =
      let name = trim_space given in
      if-Moves (is_empty name || ltb 80 (b.hashing.rune_count name)) s _ _ (reply-Moves _ _ s) (
        Moves-trans (issue-Moves name s)
          (issued_answer-Moves (issue_for b v name s).0 (with_identity (issue_for b v name s).1 s)))

  renamed_answer-Moves : (r : Outcome Client) (s : Server) → M s (renamed_answer b r s)
  renamed_answer-Moves (refused not_exist) s = reply-Moves _ _ s
  renamed_answer-Moves (refused _) s = reply-Moves _ _ s
  renamed_answer-Moves (done c) s =
      Moves-trans (Moves-of_Reach s _ (next here (rename c.id c.name))) (reply-Moves _ _ _)

  pub rename_token-Moves :
      (id : Text) (name : Option Text) (s : Server) → M s (rename_token b v id name s)
  unfolding rename_token
  rename_token-Moves id none s = reply-Moves _ _ s
  rename_token-Moves id (some name) s =
      go (rename_client_token b.hashing v.persist id name s.world.clock s.identity) refl
    where
      go :
          (r : Option (Outcome Client × Instance))
          → rename_client_token b.hashing v.persist id name s.world.clock s.identity ≡ r
          → M s (rename_result b r s)
      go none e = header_status-Moves 500 s
      go (some r) e =
          Moves-trans
            (identity-Moves b v s r.1
              (λ w d. rename-IsDurable b.hashing v.persist w s.world.clock s.identity d id name r e)
              (rename-IsAtomic b.hashing v.persist s.world.clock s.identity id name r e).bounded)
            (renamed_answer-Moves r.0 (with_identity r.1 s))

  revoked_answer-Moves : (r : Outcome Bool) (s : Server) → M s (revoked_answer b r s)
  revoked_answer-Moves (done x) s = header_status-Moves 204 s
  revoked_answer-Moves (refused not_exist) s = reply-Moves _ _ s
  revoked_answer-Moves (refused _) s = reply-Moves _ _ s

  pub revoke_token-Moves : (id : Text) (s : Server) → M s (revoke_token b v id s)
  unfolding revoke_token
  revoke_token-Moves id s =
      let r = revoke_client_token v.persist id s.world.clock s.identity in
      Moves-trans
        (identity-Moves b v s r.1
          (λ w d. revoke-IsDurable b.hashing v.persist w s.world.clock s.identity d id)
          (revoke-IsAtomic b.hashing v.persist s.world.clock s.identity id).bounded)
        (revoked_answer-Moves r.0 (with_identity r.1 s))
