-- ===== src/Proxy/Failover/Delivery.antt =====
-- That the loop of `HandleInference` of internal/proxy/service.go gets to an answer: failures of the
-- keys that come first do not keep the client from the response to a later one.
mod Rounds
pub use Rounds.{asked, request_with, IsUsable, IsWhole, IsRefusal}
use Rounds.{refused_round, answered_round, forwarded-log, Keeps}
use opencode_proxy.Base.{
  Bool, ◌==◌, refl, none, some, ℕ, suc, ◌+◌, ◌≡◌, sym, ap, subst, ◌∙◌, true, false, List, [], ◌∷◌,
  ◌++◌, append_assoc, map,
}
use opencode_proxy.Text.{Text}
use opencode_proxy.Store.Types.{Key, RequestRecord, Protocol}
use opencode_proxy.Store.Routing.{eligible_keys}
use opencode_proxy.Proxy.Stream.{is_empty}
use opencode_proxy.Proxy.Header.{Header, copy_response_headers}
use opencode_proxy.Proxy.Request.{within}
use opencode_proxy.Proxy.World.{Env, World, Incoming, Response, Event, responded, sent, set_header}
use opencode_proxy.Proxy.Inference.{
  all_failed, finish, Call, Loop, try_keys, serve, serve_keys, no_loop, new_record,
  handle_inference, admitted,
}
use opencode_proxy.Proxy.Failover.Order.{selecting_db}
use opencode_proxy.Proxy.Failover.Requests.{body_read, prepared_call, announced}

module _ (env : Env) (call : Call) where
  -- What the client and the upstream see: a call with each key, and the response.
  abbrev pub delivery : Header → List Key → Response → Text → List Event
  delivery header keys resp body =
      map (asked env call) keys
      ++ responded resp.status (copy_response_headers header resp.header) ∷ sent body ∷ []

  -- The calls from a number on are refusals, one for each key, and then the one for `key` is answered
  -- with a whole response, which is a failure of the key or is none.
  abbrev pub Reaches : Bool → ℕ → List Key → Key → Response → Text → Type 0
  Reaches fails calls [] key resp body =
      IsUsable env call key
      × IsWhole env call fails (env.upstream calls (request_with env call key)) resp body
  Reaches fails calls (k ∷ refused) key resp body =
      IsUsable env call k
      × IsRefusal env call (env.upstream calls (request_with env call k))
      × Reaches fails (suc calls) refused key resp body

  -- When the response to a key goes to the client: it is no failure of the key, or there is no other
  -- key, and it has a status and a body.
  abbrev pub IsFinal : Bool → List Key → Response → Text → Type 0
  IsFinal false others resp body = Unit {0}
  IsFinal true others resp body =
      (others ≡ []) × ((resp.status == 0) ≡ false) × (is_empty body ≡ false)

  all_failed-log :
      (key_count : ℕ) (l : Loop) (resp : Response) (body : Text)
      → Keeps env call l resp body
      → (resp.status == 0) ≡ false
      → is_empty body ≡ false
      → env.accepts l.world.writes ≡ true
      → (all_failed env call key_count l).log ≡ l.world.log ++ delivery l.world.header [] resp body
  unfolding all_failed finish
  all_failed-log key_count l resp body (status, header, last) given whole taken =
      rw (all_failed, header, last, whole, status, given)
        (forwarded-log env call resp.status resp.header body l.world (record l.world { db = _ })
          (refl, refl, refl, refl) taken)

  -- A delivery behind a call.
  behind_call :
      (key : Key) (keys : List Key) (next w : World) (resp : Response) (body : Text)
      → next.log ≡ w.log ++ asked env call key ∷ []
      → next.header ≡ w.header
      → next.log ++ delivery next.header keys resp body
        ≡ w.log ++ delivery w.header (key ∷ keys) resp body
  behind_call key keys next w resp body log header =
      ap (λ g. g ++ delivery next.header keys resp body) log
      ∙ (append_assoc w.log (asked env call key ∷ []) _
          ∙ ap (λ h. w.log ++ asked env call key ∷ delivery h keys resp body) header)

  try_keys-delivery :
      (fails : Bool) (key_count tried : ℕ) (refused : List Key) (key : Key) (others : List Key)
      (l : Loop) (resp : Response) (body : Text)
      → Reaches fails l.world.calls refused key resp body
      → IsFinal fails others resp body
      → env.accepts l.world.writes ≡ true
      → (try_keys env call key_count tried (refused ++ key ∷ others) l).log
        ≡ l.world.log ++ delivery l.world.header (refused ++ key ∷ []) resp body
  unfolding try_keys
  try_keys-delivery false key_count tried [] key others l resp body (usable, whole) final taken =
      let (v, stops, log) =
        answered_round env call key (suc tried) l resp body usable whole taken in
      rw (try_keys, stops) log
  try_keys-delivery true key_count tried [] key others l resp body (usable, whole)
        (last, given, present) taken =
      let (next, goes_on, log, header, calls, writes, keeps) =
        refused_round env call key (suc tried) l resp body usable whole in
      let failed =
        all_failed-log key_count next resp body keeps given present
          (subst (λ n. env.accepts n ≡ true) (sym writes) taken) in
      subst
        (λ os.
          (try_keys env call key_count tried (key ∷ os) l).log
          ≡ l.world.log ++ delivery l.world.header (key ∷ []) resp body)
        (sym last)
        (rw (try_keys, goes_on)
          (failed ∙ behind_call key [] next.world l.world resp body log header))
  try_keys-delivery fails key_count tried (k ∷ refused) key others l resp body
        (usable, (refusal, withheld, whole), more) final taken =
      let (next, goes_on, log, header, calls, writes, _) =
        refused_round env call k (suc tried) l refusal withheld usable whole in
      let rest =
        try_keys-delivery fails key_count (suc tried) refused key others next resp body
          (subst (λ n. Reaches fails n refused key resp body) (sym calls) more) final
          (subst (λ n. env.accepts n ≡ true) (sym writes) taken) in
      rw (try_keys, goes_on)
        (rest ∙ behind_call k (refused ++ key ∷ []) next.world l.world resp body log header)

  serve_keys-delivery :
      (fails : Bool) (refused : List Key) (key : Key) (others : List Key) (r : RequestRecord)
      (w : World) (resp : Response) (body : Text)
      → Reaches fails w.calls refused key resp body
      → IsFinal fails others resp body
      → env.accepts w.writes ≡ true
      → (serve_keys env call r (refused ++ key ∷ others) w).log
        ≡ w.log ++ delivery w.header (refused ++ key ∷ []) resp body
  unfolding serve_keys
  serve_keys-delivery fails [] key others r w resp body reaches final taken =
      try_keys-delivery fails _ 0 [] key others (no_loop r w) resp body reaches final taken
  serve_keys-delivery fails (k ∷ refused) key others r w resp body reaches final taken =
      try_keys-delivery fails _ 0 (k ∷ refused) key others (no_loop r w) resp body reaches final
        taken

  serve-delivery :
      (fails : Bool) (refused : List Key) (key : Key) (others : List Key) (w : World)
      (resp : Response) (body : Text)
      → eligible_keys (selecting_db call w) ≡ refused ++ key ∷ others
      → Reaches fails w.calls refused key resp body
      → IsFinal fails others resp body
      → env.accepts w.writes ≡ true
      → (serve env call w).log ≡ w.log ++ delivery w.header (refused ++ key ∷ []) resp body
  unfolding serve
  serve-delivery fails refused key others w resp body keys reaches final taken =
      let start : World = record w { db = selecting_db call w } in
      subst
        (λ ks.
          (serve_keys env call (new_record call) ks start).log
          ≡ w.log ++ delivery w.header (refused ++ key ∷ []) resp body)
        (sym keys)
        (serve_keys-delivery fails refused key others (new_record call) start resp body reaches
          final taken)

module _ (env : Env) (protocol : Protocol) (incoming : Incoming) (id : Text) (w : World) where
  -- Failover gets to an answer. Of the keys that EligibleKeys lists, those before a key are refused,
  -- with whole responses that are failures of the key (quota or authentication). The response to the
  -- key is whole and no such failure; or it is one too, has a status and a body, and there is no other
  -- key. Then the upstream is called with each of these keys in turn, and the client gets the status,
  -- the headers and the body of the last response, and nothing else. The keys can be decrypted, the
  -- body of the request is within its limit, and the client is there.
  pub handle_inference-delivery :
      (content : Text) (fails : Bool) (refused : List Key) (key : Key) (others : List Key)
      (resp : Response) (body : Text)
      → let call = prepared_call env protocol incoming id w content in
        let start = announced env protocol incoming id w in
        body_read env protocol incoming id w ≡ within content
        → eligible_keys (selecting_db call start) ≡ refused ++ key ∷ others
        → Reaches env call fails w.calls refused key resp body
        → IsFinal env call fails others resp body
        → env.accepts w.writes ≡ true
        → (handle_inference env protocol incoming id w).log
          ≡ w.log ++ delivery env call start.header (refused ++ key ∷ []) resp body
  unfolding handle_inference set_header
  handle_inference-delivery content fails refused key others resp body read keys reaches final
        taken =
      let call = prepared_call env protocol incoming id w content in
      subst
        (λ r.
          (admitted env protocol incoming id (announced env protocol incoming id w) r).log
          ≡ w.log
            ++ delivery env call (announced env protocol incoming id w).header (refused ++ key ∷ [])
                resp body)
        (sym read)
        (serve-delivery env call fails refused key others (announced env protocol incoming id w)
          resp body keys reaches final taken)
