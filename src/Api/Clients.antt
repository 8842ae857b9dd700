-- ===== src/Api/Clients.antt =====
-- The handlers of client tokens and of enrolment in internal/httpapi/client_setup.go.
use opencode_proxy.Base.{
  Bool, true, false, ◌&&◌, ◌||◌, not, [], ◌++◌, Option, none, some, ltb, if◌then◌else◌, ◌+◌,
}
use opencode_proxy.Text.{Text, codes, text_eq, trim_space}
use opencode_proxy.Time.{minutes}
use opencode_proxy.Store.Telemetry.{rename_request_client}
use opencode_proxy.Proxy.World.{trim_slashes, write_header}
use opencode_proxy.Identity.{
  Client, Instance, Outcome, done, refused, not_exist, issue_client_token, rename_client_token,
  revoke_client_token,
}
use opencode_proxy.Identity.Opening.{is_initialized, list_client_tokens}
use opencode_proxy.Api.Enrollments.{Enrollment, enroll, consume}
use opencode_proxy.Api.Providers.{client_providers, default_model}
use opencode_proxy.Api.Server.{
  Backend, Visit, Server, Url, identity_error, client_tokens, one_client, issued_token, ticket,
  enrolled_client, reply, reply_error, server_error, set_response_header, no_store, no_content,
  write_text,
}
use opencode_proxy.Api.Pool.{with_server_db, is_empty}

abbrev pub install_type : Bool → Text
install_type true = codes "text/plain; charset=utf-8"
install_type false = codes "text/x-shellscript; charset=utf-8"

-- `clientInstallPowerShell` and `clientInstallShell`, with the embedded script.
unfoldable pub client_install : Backend → Bool → Server → Server
client_install b power_shell s = write_text b 200 (b.install_script power_shell) (
    set_response_header (codes "Cache-Control") (codes "public, max-age=300")
      (set_response_header (codes "Content-Type") (install_type power_shell) s))

abbrev pub is_bad_origin : Url → Bool
is_bad_origin u =
    not (text_eq u.scheme (codes "http")) && not (text_eq u.scheme (codes "https"))
    || is_empty u.host
    || u.has_user

abbrev pub normalized : Backend → Option Url → Option Text
normalized b none = none
normalized b (some u) =
    if is_bad_origin u
    then none
    else some (
        trim_slashes
          (b.url_text (record u { path = trim_slashes u.path; raw_query = []; fragment = [] })))

unfoldable pub normalize_client_base_url : Backend → Text → Option Text
unfolding trim_slashes
normalize_client_base_url b value = normalized b (b.parse_url (trim_space value))

-- `createClientEnrollment`; `none` is a body that is no JSON or over 8 KiB.
abbrev pub enrollment_name : Text → Text
enrollment_name name =
    if is_empty (trim_space name) then codes "OpenCode client" else trim_space name

abbrev pub with_ticket : Backend → Visit → Text → Server → Server
with_ticket b v name s = record s {
  tickets = enroll b.ticket_hash v.ticket name s.world.clock s.tickets;
}

unfoldable pub create_client_enrollment : Backend → Visit → Option Text → Server → Server
create_client_enrollment b v none s = reply_error b 400 "invalid request" s
create_client_enrollment b v (some name) s =
    if ltb 80 (b.hashing.rune_count (enrollment_name name))
    then reply_error b 400 "client name is too long" s
    else reply b 201 (ticket v.ticket (s.world.clock + minutes 10))
        (no_store (with_ticket b v (enrollment_name name) s))

-- `IssueClientToken`, and what is done with its result.
abbrev pub with_identity : Instance → Server → Server
with_identity i s = record s { identity = i }

abbrev pub issue_for : Backend → Visit → Text → Server → Outcome (Client × Text) × Instance
issue_for b v name s =
    issue_client_token b.hashing v.persist name v.client_id v.client_token s.world.clock s.identity

abbrev pub enrolled_answer : Backend → Text → Outcome (Client × Text) → Server → Server
enrolled_answer b base (refused e) s = server_error b s
enrolled_answer b base (done (client, token)) s =
    reply b 201
      (enrolled_client client token default_model (client_providers (base ++ codes "/v1"))) s

abbrev pub enroll_named : Backend → Visit → Text → Option Enrollment → Server → Server
enroll_named b v base none s =
    reply_error b 401 "pairing ticket is invalid, expired, or already used" s
enroll_named b v base (some e) s =
    let (result, new) = issue_for b v e.name s in
    enrolled_answer b base result (with_identity new s)

abbrev pub enroll_at : Backend → Visit → Text → Option Text → Server → Server
enroll_at b v pairing none s = reply_error b 400 "base_url must be an HTTP or HTTPS origin" s
enroll_at b v pairing (some base) s =
    let (e, rest) = consume b.ticket_hash (trim_space pairing) s.world.clock s.tickets in
    enroll_named b v base e (record s { tickets = rest })

abbrev pub enroll_decoded : Backend → Visit → Option (Text × Text) → Server → Server
enroll_decoded b v none s = reply_error b 400 "invalid request" s
enroll_decoded b v (some (pairing, base_url)) s =
    enroll_at b v pairing (normalize_client_base_url b base_url) s

-- `clientEnroll`, with the ticket and the address of the body.
unfoldable pub client_enroll : Backend → Visit → Option (Text × Text) → Server → Server
unfolding normalize_client_base_url
client_enroll b v input s =
    if is_initialized s.identity
    then enroll_decoded b v input (no_store s)
    else reply_error b 503 "instance setup is required" (no_store s)

unfoldable pub list_tokens : Backend → Server → Server
list_tokens b s = reply b 200 (client_tokens (list_client_tokens s.identity)) s

abbrev pub issued_answer : Backend → Outcome (Client × Text) → Server → Server
issued_answer b (refused e) s = server_error b s
issued_answer b (done (client, token)) s = reply b 201 (issued_token client token) (no_store s)

unfoldable pub create_client_token : Backend → Visit → Option Text → Server → Server
create_client_token b v none s = reply_error b 400 "invalid request" s
create_client_token b v (some given) s =
    let name = trim_space given in
    let (result, new) = issue_for b v name s in
    if is_empty name || ltb 80 (b.hashing.rune_count name)
    then reply_error b 400 "client name must contain 1 to 80 characters" s
    else issued_answer b result (with_identity new s)

-- The requests of the client are renamed with it.
abbrev pub renamed_answer : Backend → Outcome Client → Server → Server
renamed_answer b (refused not_exist) s = reply_error b 404 "client token not found" s
renamed_answer b (refused e) s = reply b 400 (identity_error e) s
renamed_answer b (done c) s =
    reply b 200 (one_client c) (with_server_db (rename_request_client c.id c.name s.world.db) s)

-- A panic of RenameClientToken is answered with 500 by the Recoverer of chi.
abbrev pub rename_result : Backend → Option (Outcome Client × Instance) → Server → Server
rename_result b none s = record s { world = write_header 500 s.world }
rename_result b (some (result, new)) s = renamed_answer b result (with_identity new s)

unfoldable pub rename_token : Backend → Visit → Text → Option Text → Server → Server
unfolding rename_request_client
rename_token b v id none s = reply_error b 400 "invalid request" s
rename_token b v id (some name) s =
    rename_result b (rename_client_token b.hashing v.persist id name s.world.clock s.identity) s

abbrev pub revoked_answer : Backend → Outcome Bool → Server → Server
revoked_answer b (done x) s = no_content s
revoked_answer b (refused not_exist) s = reply_error b 404 "client token not found" s
revoked_answer b (refused e) s = server_error b s

unfoldable pub revoke_token : Backend → Visit → Text → Server → Server
revoke_token b v id s =
    let (result, new) = revoke_client_token v.persist id s.world.clock s.identity in
    revoked_answer b result (with_identity new s)
