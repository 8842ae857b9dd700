-- ===== src/Proxy/Failover/Delivery/Rounds.antt =====
-- The rounds of `HandleInference` of internal/proxy/service.go whose upstream answers with a whole
-- response: with one that is a failure of the key, and with one that goes to the client.
use opencode_proxy.Base.{
  ℕ, suc, ◌+◌, ◌≡◌, refl, sym, ap, subst, ◌∙◌, inl, inr, Bool, true, false, Bool-cases, [], ◌∷◌,
  ◌++◌, append_assoc, Option, none, some, ltb, if◌then◌else◌,
}
use opencode_proxy.Text.{Text}
use opencode_proxy.Time.{Time}
use opencode_proxy.Store.Types.{Key, RequestRecord, is_active}
use opencode_proxy.Proxy.Header.{Header, copy_response_headers}
use opencode_proxy.Proxy.Classifier.{Classification, classify}
use opencode_proxy.Proxy.Request.{read_all_limited}
use opencode_proxy.Proxy.World.{
  Env, World, Response, Reply, answered, Event, called, responded, sent, UpstreamRequest,
  upstream_request, do_request, reply_latency, response_of, write, write_header, pass,
}
use opencode_proxy.Proxy.Stream.{is_key_failure}
use opencode_proxy.Proxy.Inference.{
  Call, Loop, go_on, stop, try_key, key_verdict, try_reply, try_body, body_failover, body_done,
  is_event_stream, response_limit, use_key, promote_if_needed, finish,
}

abbrev pub secret_of : Option Text → Text
secret_of none = []
secret_of (some s) = s

module _ (env : Env) (call : Call) where
  -- The request with a key.
  abbrev pub request_with : Key → UpstreamRequest
  request_with key =
      upstream_request env call.incoming.header call.incoming.raw_query call.protocol call.body
        (secret_of (env.decrypt key.encrypted_key))

  abbrev pub asked : Key → Event
  asked key = called key.id (request_with key)

  abbrev pub IsUsable : Key → Type 0
  IsUsable key = (secret : Text) × (env.decrypt key.encrypted_key ≡ some secret)

  -- A whole response with a body, which at any time is a failure of the key or is none.
  abbrev pub IsWhole : Bool → Reply → Response → Text → Type 0
  IsWhole fails reply resp body =
      (reply ≡ answered resp)
      × (is_event_stream call.meta resp ≡ false)
      × (read_all_limited response_limit resp.body ≡ some body)
      × ((now : Time)
          → is_key_failure (classify env.codec resp.status resp.header body now).kind ≡ fails)

  abbrev pub IsRefusal : Reply → Type 0
  IsRefusal reply = (resp : Response) × (body : Text) × IsWhole true reply resp body

  -- The world behind a call with a secret.
  abbrev pub called_with : Key → Text → Reply → World → World
  called_with key secret reply w = record w {
    clock = w.clock + reply_latency reply;
    log =
        w.log
        ++ called key.id (
            upstream_request env call.incoming.header call.incoming.raw_query call.protocol
              call.body secret)
          ∷ [];
    calls = suc w.calls;
  }

  -- A round with a key that can be decrypted is a call with its secret, and what becomes of the reply.
  try_key-try_reply :
      (key : Key) (n : ℕ) (l : Loop) (reply : Reply)
      → IsUsable key
      → env.upstream l.world.calls (request_with key) ≡ reply
      → try_key env call key n l
        ≡ try_reply env call key n l.world.clock
            (response_of reply)
            l
            (called_with key (secret_of (env.decrypt key.encrypted_key)) reply l.world)
  unfolding try_key do_request
  try_key-try_reply key n l reply (secret, d) e = by_secret (env.decrypt key.encrypted_key) d e
    where
      by_secret :
          (s : Option Text)
          → s ≡ some secret
          → env.upstream l.world.calls (
              upstream_request env call.incoming.header call.incoming.raw_query call.protocol
                call.body
                (secret_of s))
            ≡ reply
          → key_verdict env call key n l s
            ≡ try_reply env call key n l.world.clock
                (response_of reply)
                l
                (called_with key (secret_of s) reply l.world)
      by_secret none d e = cc
      by_secret (some x) d e =
          ap
            (λ r.
              try_reply env call key n l.world.clock (response_of r) l
                (called_with key x r l.world))
            e

  -- The bookkeeping of the loop: the client, the upstream and their counts are left alone.
  abbrev pub Apart : World → World → Type 0
  Apart u v = (v.log ≡ u.log) × (v.header ≡ u.header) × (v.calls ≡ u.calls) × (v.writes ≡ u.writes)

  -- What the loop keeps of a response that was withheld.
  abbrev pub Keeps : Loop → Response → Text → Type 0
  Keeps l resp body =
      (l.last_status ≡ resp.status) × (l.last_header ≡ some resp.header) × (l.last_body ≡ body)

  refused_reply :
      (key : Key) (n : ℕ) (t : Time) (l : Loop) (w : World) (resp : Response) (body : Text)
      → is_event_stream call.meta resp ≡ false
      → read_all_limited response_limit resp.body ≡ some body
      → ((now : Time)
          → is_key_failure (classify env.codec resp.status resp.header body now).kind ≡ true)
      → (next : Loop) × (try_reply env call key n t (some resp) l w ≡ go_on next)
        × Apart w next.world
        × Keeps next resp body
  unfolding try_reply try_body body_failover
  refused_reply key n t l w resp body whole read fails =
      rw (whole, read, fails (w.clock + resp.transfer))
        (_, refl, (refl, refl, refl, refl), (refl, refl, refl))

  use_key-Apart : (key : Key) (w : World) → Apart w (use_key key w)
  unfolding promote_if_needed
  use_key-Apart key w = elim (Bool-cases (is_active key.pool_role)) [
    | inl active ↦ rw active (refl, refl, refl, refl)
    | inr standby ↦ rw standby (refl, refl, refl, refl)
  ]

  settled-Apart : (b : Bool) (key : Key) (w : World) → Apart w (if b then use_key key w else w)
  settled-Apart true key w = use_key-Apart key w
  settled-Apart false key w = (refl, refl, refl, refl)

  written-log :
      (b : Text) (w : World)
      → env.accepts w.writes ≡ true
      → (write env b w).0.log ≡ w.log ++ sent b ∷ []
  unfolding write
  written-log b w taken = rw taken refl

  pub forwarded-log :
      (status : ℕ) (h : Header) (body : Text) (w v : World)
      → Apart w v
      → env.accepts w.writes ≡ true
      → (write env body
          (write_header status (record v { header = copy_response_headers v.header h }))).0.log
        ≡ w.log ++ responded status (copy_response_headers w.header h) ∷ sent body ∷ []
  unfolding write_header
  forwarded-log status h body w v (log, header, calls, writes) taken =
      written-log body
        (write_header status (record v { header = copy_response_headers v.header h }))
        (subst (λ n. env.accepts n ≡ true) (sym writes) taken)
      ∙ (append_assoc v.log _ _
          ∙ (ap (λ l. l ++ responded status (copy_response_headers v.header h) ∷ sent body ∷ []) log
              ∙ ap (λ g. w.log ++ responded status (copy_response_headers g h) ∷ sent body ∷ [])
                  header))

  body_done-log :
      (key : Key) (n : ℕ) (t : Time) (resp : Response) (body : Text) (c : Classification)
      (r : RequestRecord) (w : World)
      → env.accepts w.writes ≡ true
      → (body_done env call key n t resp body c r w).log
        ≡ w.log
          ++ responded resp.status (copy_response_headers w.header resp.header) ∷ sent body ∷ []
  unfolding body_done finish
  body_done-log key n t resp body c r w taken =
      forwarded-log resp.status resp.header body w _ (settled-Apart (ltb resp.status 400) key _)
        taken

  answered_reply :
      (key : Key) (n : ℕ) (t : Time) (l : Loop) (w : World) (resp : Response) (body : Text)
      → is_event_stream call.meta resp ≡ false
      → read_all_limited response_limit resp.body ≡ some body
      → ((now : Time)
          → is_key_failure (classify env.codec resp.status resp.header body now).kind ≡ false)
      → env.accepts w.writes ≡ true
      → (v : World) × (try_reply env call key n t (some resp) l w ≡ stop v)
        × (v.log
            ≡ w.log
              ++ responded resp.status (copy_response_headers w.header resp.header)
                ∷ sent body
                ∷ [])
  unfolding try_reply try_body
  answered_reply key n t l w resp body whole read passes taken =
      rw (whole, read, passes (w.clock + resp.transfer))
        (_, refl, body_done-log key n t resp body _ l.request (pass resp.transfer w) taken)

  -- A round with a key that is refused.
  pub refused_round :
      (key : Key) (n : ℕ) (l : Loop) (resp : Response) (body : Text)
      → IsUsable key
      → IsWhole true (env.upstream l.world.calls (request_with key)) resp body
      → (next : Loop) × (try_key env call key n l ≡ go_on next)
        × (next.world.log ≡ l.world.log ++ asked key ∷ [])
        × (next.world.header ≡ l.world.header)
        × (next.world.calls ≡ suc l.world.calls)
        × (next.world.writes ≡ l.world.writes)
        × Keeps next resp body
  refused_round key n l resp body usable (reply, whole, read, fails) =
      let w = called_with key (secret_of (env.decrypt key.encrypted_key)) (answered resp) l.world in
      let (next, goes_on, (log, header, calls, writes), keeps) =
        refused_reply key n l.world.clock l w resp body whole read fails in
      (next, try_key-try_reply key n l _ usable reply ∙ goes_on, log, header, calls, writes, keeps)

  -- The round with the key whose response the client gets.
  pub answered_round :
      (key : Key) (n : ℕ) (l : Loop) (resp : Response) (body : Text)
      → IsUsable key
      → IsWhole false (env.upstream l.world.calls (request_with key)) resp body
      → env.accepts l.world.writes ≡ true
      → (v : World) × (try_key env call key n l ≡ stop v)
        × (v.log
            ≡ l.world.log
              ++ asked key
                ∷ responded resp.status (copy_response_headers l.world.header resp.header)
                ∷ sent body
                ∷ [])
  answered_round key n l resp body usable (reply, whole, read, passes) taken =
      let w = called_with key (secret_of (env.decrypt key.encrypted_key)) (answered resp) l.world in
      let (v, stops, log) =
        answered_reply key n l.world.clock l w resp body whole read passes taken in
      (v, try_key-try_reply key n l _ usable reply ∙ stops, log ∙ append_assoc l.world.log _ _)
