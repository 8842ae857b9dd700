-- ===== src/Api/Pairing.antt =====
-- The enrolment of a client from end to end: the ticket that the console creates, and the client that
-- brings it in time.
use opencode_proxy.Base.{
  ℕ, ◌+◌, ◌≡◌, ◌≤◌, refl, sym, subst, ap, ◌∙◌, true, false, Bool-cases, inl, inr, [], Option, none,
  some, is_some, if◌then◌else◌, leb, ltb, length, arith,
}
use opencode_proxy.Text.{Text, trim_space}
use opencode_proxy.Time.{minutes}
use opencode_proxy.Proxy.World.{Env, World, write, set_header, write_header, write_json}
use opencode_proxy.Identity.{
  Instance, DiskState, client, written, authenticate_proxy, issue_client_token, client_name, done,
  refused, Outcome, Client,
}
use opencode_proxy.Identity.Access.{IsFree, authenticate-issue}
use opencode_proxy.Identity.Opening.{is_initialized}
use opencode_proxy.Api.Enrollments.{Enrollment, Tickets, enroll, consume, ticket_run}
use opencode_proxy.Api.Enrollments.OneTime.{consume-enroll}
use opencode_proxy.Api.Gates.{admitted, admin_auth}
use opencode_proxy.Api.Server.{Backend, Visit, Server, Answer, ticket, reply, no_store}
use opencode_proxy.Api.Clients.{
  enrollment_name, create_client_enrollment, normalize_client_base_url, enroll_named, enroll_at,
  enroll_decoded, client_enroll, with_identity, issue_for, enrolled_answer, with_ticket,
}
use opencode_proxy.Api.Router.{
  open_to_all, for_admin, PublicRoute, AdminRoute, gated, serve_admin, serve_public,
  through_admin_auth, handle, security_headers,
}

write-clock : (env : Env) (x : Text) (w : World) → (write env x w).0.clock ≡ w.clock
unfolding write
write-clock env x w = elim (Bool-cases (env.accepts w.writes)) [
  | inl taken ↦ rw taken refl
  | inr cut ↦ rw cut refl
]

reply-clock :
    (b : Backend) (status : ℕ) (a : Answer) (s : Server)
    → (reply b status a s).world.clock ≡ s.world.clock
unfolding reply write_json set_header write_header
reply-clock b status a s = write-clock b.env _ _

-- The hash of a new token lets its client in, wherever the state in memory comes from.
enters :
    (b : Backend) (w : Visit) (name : Text) (d : DiskState) (s : Server)
    → s.identity.state ≡ some d
    → w.persist ≡ written
    → leb 100 (length d.clients) ≡ false
    → IsFree (b.hashing.token_hash w.client_token) d
    → authenticate_proxy b.hashing w.client_token (issue_for b w name s).1
      ≡ some (client w.client_id (client_name b.hashing name))
enters b w name d s e p few free = rw p (
    subst
      (λ st.
        authenticate_proxy b.hashing w.client_token
          (issue_client_token b.hashing written name w.client_id w.client_token s.world.clock
            (record { state = st; file = s.identity.file })).1
        ≡ some (client w.client_id (client_name b.hashing name)))
      (sym e)
      (authenticate-issue b.hashing name w.client_id w.client_token s.world.clock s.world.clock d
        s.identity.file few free))

module _ (b : Backend) (v w : Visit) (name : Text) (d : DiskState) where
  abbrev pub pairing_name : Text
  pairing_name = enrollment_name name

  -- What the handler of the console leaves behind.
  created_ticket :
      (s : Server)
      → ltb 80 (b.hashing.rune_count pairing_name) ≡ false
      → let t = create_client_enrollment b v (some name) s in
        (t.identity ≡ s.identity)
        × (t.world.clock ≡ s.world.clock)
        × (t.tickets ≡ enroll b.ticket_hash v.ticket pairing_name s.world.clock s.tickets)
  unfolding create_client_enrollment reply set_header
  created_ticket s short = rw short (
    refl,
    reply-clock b 201 (ticket v.ticket (s.world.clock + minutes 10))
        (no_store (with_ticket b v pairing_name s)),
    refl,
  )

  at_admin :
      (e : ℕ) (s : Server)
      → (admin_auth (is_initialized s.identity) v.request (s.world.clock + e) s.sessions).0
        ≡ admitted
      → ltb 80 (b.hashing.rune_count pairing_name) ≡ false
      → let t = handle b e v (for_admin (AdminRoute.post_client_enrollments (some name))) s in
        (t.identity ≡ s.identity)
        × (t.world.clock ≡ s.world.clock + e)
        × (t.tickets ≡ enroll b.ticket_hash v.ticket pairing_name (s.world.clock + e) s.tickets)
  unfolding handle security_headers set_header through_admin_auth serve_admin
  at_admin e s adm short =
      let found : Server =
        security_headers (record s { world = record s.world { clock = s.world.clock + e } }) in
      let (gate, sessions) =
        admin_auth (is_initialized s.identity) v.request (s.world.clock + e) s.sessions in
      subst
        (λ g.
          let t =
            gated b v (AdminRoute.post_client_enrollments (some name)) g
              (record found { sessions = sessions }) in
          (t.identity ≡ s.identity)
          × (t.world.clock ≡ s.world.clock + e)
          × (t.tickets ≡ enroll b.ticket_hash v.ticket pairing_name (s.world.clock + e) s.tickets))
        (sym adm) (created_ticket (record found { sessions = sessions }) short)

  identity_of_answer :
      (base : Text) (o : Option Enrollment) (x : Enrollment) (s : Server)
      → o ≡ some x
      → (enroll_named b w base o s).identity ≡ (issue_for b w x.name s).1
  unfolding reply
  identity_of_answer base o x s e =
      subst (λ o. (enroll_named b w base o s).identity ≡ (issue_for b w x.name s).1) (sym e)
        (by_result (issue_for b w x.name s))
    where
      by_result :
          (r : Outcome (Client × Text) × Instance)
          → (enrolled_answer b base r.0 (with_identity r.1 s)).identity ≡ r.1
      by_result (done (c, t), i) = refl
      by_result (refused e, i) = refl

  identity_at :
      (base : Text) (o : Option Text) (x : Enrollment) (s : Server)
      → o ≡ some base
      → trim_space v.ticket ≡ v.ticket
      → (consume b.ticket_hash v.ticket s.world.clock s.tickets).0 ≡ some x
      → (enroll_at b w v.ticket o s).identity ≡ (issue_for b w x.name s).1
  identity_at base o x s norm trim found =
      subst (λ o. (enroll_at b w v.ticket o s).identity ≡ (issue_for b w x.name s).1) (sym norm)
        (subst
          (λ p.
            (enroll_named b w base (consume b.ticket_hash p s.world.clock s.tickets).0
              (record s { tickets = (consume b.ticket_hash p s.world.clock s.tickets).1 })).identity
            ≡ (issue_for b w x.name s).1)
          (sym trim)
          (identity_of_answer base _ x
            (record s { tickets = (consume b.ticket_hash v.ticket s.world.clock s.tickets).1 })
            found))

  ready_identity :
      (st : Option DiskState) (t u : Server)
      → st ≡ some d
      → (if is_some st then t else u).identity ≡ t.identity
  ready_identity st t u e =
      subst (λ st. (if is_some st then t else u).identity ≡ t.identity) (sym e) refl

  at_client :
      (e : ℕ) (url base : Text) (x : Enrollment) (s : Server)
      → s.identity.state ≡ some d
      → normalize_client_base_url b url ≡ some base
      → trim_space v.ticket ≡ v.ticket
      → (consume b.ticket_hash v.ticket (s.world.clock + e) s.tickets).0 ≡ some x
      → w.persist ≡ written
      → leb 100 (length d.clients) ≡ false
      → IsFree (b.hashing.token_hash w.client_token) d
      → authenticate_proxy b.hashing w.client_token
          (handle b e w (open_to_all (PublicRoute.post_enroll (some (v.ticket, url)))) s).identity
        ≡ some (client w.client_id (client_name b.hashing x.name))
  unfolding handle security_headers set_header serve_public client_enroll
  at_client e url base x s held norm trim found p few free =
      let r : Server =
        no_store
          (security_headers (record s { world = record s.world { clock = s.world.clock + e } })) in
      subst
        (λ i.
          authenticate_proxy b.hashing w.client_token i
          ≡ some (client w.client_id (client_name b.hashing x.name)))
        (sym (
          ready_identity s.identity.state (enroll_decoded b w (some (v.ticket, url)) r) _ held
          ∙ identity_at base (normalize_client_base_url b url) x r norm trim found))
        (enters b w x.name d r held p few free)

in_time_lem :
    (b : Backend) (pairing name : Text) (start later : ℕ) (t : Server) (old : Tickets)
    → t.world.clock ≡ start
    → t.tickets ≡ enroll b.ticket_hash pairing name start old
    → later ≤ minutes 10
    → (consume b.ticket_hash pairing (t.world.clock + later) t.tickets).0
      ≡ some (record { name = name; expires_at = start + minutes 10 })
unfolding ticket_run
in_time_lem b pairing name start later t old clock tickets le =
    let x : Enrollment = record { name = name; expires_at = start + minutes 10 } in
    let open_until : leb (start + later) (start + minutes 10) ≡ true = ground arith in
    rw (clock, tickets)
      (consume-enroll b.ticket_hash pairing name start (start + later) [] old tt
        ∙ ap (λ c. if c then some x else none) open_until)

-- Pairing from end to end: an admitted request of the console creates a ticket under a name of at most
-- 80 runes, and a client that brings it at most ten minutes later, with the address of a server, is
-- let in from then on with the token it is issued, under its id and the name of the ticket. There are
-- fewer than 100 clients, no way in has the hash of the token, and the file of the identity is written.
pub handle-pairing :
    (b : Backend) (v w : Visit) (name url base : Text) (d : DiskState) (e later : ℕ) (s : Server)
    → (admin_auth (is_initialized s.identity) v.request (s.world.clock + e) s.sessions).0 ≡ admitted
    → s.identity.state ≡ some d
    → ltb 80 (b.hashing.rune_count (enrollment_name name)) ≡ false
    → later ≤ minutes 10
    → trim_space v.ticket ≡ v.ticket
    → normalize_client_base_url b url ≡ some base
    → w.persist ≡ written
    → leb 100 (length d.clients) ≡ false
    → IsFree (b.hashing.token_hash w.client_token) d
    → let created = handle b e v (for_admin (AdminRoute.post_client_enrollments (some name))) s in
      let paired =
        handle b later w (open_to_all (PublicRoute.post_enroll (some (v.ticket, url)))) created in
      authenticate_proxy b.hashing w.client_token paired.identity
      ≡ some (client w.client_id (client_name b.hashing (enrollment_name name)))
handle-pairing b v w name url base d e later s adm held short in_time trim norm p few free =
    let t = handle b e v (for_admin (AdminRoute.post_client_enrollments (some name))) s in
    let (same, clock, tickets) = at_admin b v w name d e s adm short in
    at_client b v w name d later url base
      (record { name = enrollment_name name; expires_at = s.world.clock + e + minutes 10 }) t
      (ap (λ i. i.state) same ∙ held) norm trim
      (in_time_lem b v.ticket (enrollment_name name) (s.world.clock + e) later t s.tickets clock
        tickets in_time)
      p few free
