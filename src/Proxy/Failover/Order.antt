-- ===== src/Proxy/Failover/Order.antt =====
-- The order of what a request does: it calls the upstream with keys of `EligibleKeys`, each at most
-- once and in that order, and answers the client once, after the last call.
use opencode_proxy.Base.{ℕ, suc, ◌≡◌, refl, inr, List, [], ◌∷◌, ◌++◌, Option, none, some}
use opencode_proxy.Text.{Text}
use opencode_proxy.Store.Types.{Key, Db, RequestRecord, after}
use opencode_proxy.Store.Keys.{mark_half_open_due}
use opencode_proxy.Store.Telemetry.{begin_request}
use opencode_proxy.Store.Routing.{eligible_keys}
use opencode_proxy.Store.Steps.{here, next, half_open, begin}
use opencode_proxy.Proxy.Header.{Header}
use opencode_proxy.Proxy.World.{
  Env, World, Response, called, UpstreamRequest, upstream_request, do_request, response_of,
}
use opencode_proxy.Proxy.Inference.{
  Call, Loop, Verdict, go_on, stop, try_key, try_keys, all_failed, no_key, serve_keys, serve,
  copy_last, key_verdict, no_loop, new_record,
}
use opencode_proxy.Proxy.Failover.Answers.{
  Quiet, Answers, Quiet-refl, Quiet-trans, Answers-after, Answers-then, write_header-Answers,
  write-Sends, write_json-Answers,
}
use opencode_proxy.Proxy.Failover.Calls.{
  Serves, Serves-of_Closes, Serves-after, Serves-passed, Serves-placed,
}
use opencode_proxy.Proxy.Failover.Rounds.{Rounds, try_reply-Rounds}
use opencode_proxy.Proxy.Failover.Forwarding.{IsUnreadable}
use opencode_proxy.Proxy.Failover.Storing.{finish-Quiet, finish_unavailable-Quiet, with_db-Quiet}

all_failed-Answers :
    (env : Env) (call : Call) (n : ℕ) (l : Loop) → Answers l.world (all_failed env call n l)
unfolding all_failed
all_failed-Answers env call n l =
    Answers-after (Quiet-trans (copied l.last_header) (finish-Quiet _ _ call.started _))
      (Answers-then (write_header-Answers _ _) (write-Sends env _ _))
  where
    copied : (h : Option Header) → Quiet l.world (copy_last h l.world)
    copied none = Quiet-refl l.world
    copied (some h) = record { reach = here; same = refl }

-- The request that is sent with a key: with the key's own secret, and with the client's headers.
abbrev pub Asked : Env → Call → Key → UpstreamRequest → Type 0
Asked env call key req =
    (secret : Text) × (env.decrypt key.encrypted_key ≡ some secret)
    × (req
        ≡ upstream_request env call.incoming.header call.incoming.raw_query call.protocol call.body
            secret)

-- The reason for which a request may stay without an answer: the first event of a body that the upstream
-- sends cannot be read.
abbrev pub Unread : Env → Type 0
Unread env =
    (n : ℕ) × (req : UpstreamRequest) × (resp : Response) × (response_of (env.upstream n req)
      ≡ some resp)
    × IsUnreadable resp

-- How a round starts: the key cannot be read, or the upstream is called with it.
data Starts (env : Env) (call : Call) (key : Key) (l : Loop) : Verdict → Type 0 where
  unreadable : Starts env call key l (go_on l)
  calling :
      {v : Verdict} (req : UpstreamRequest) (w : World)
      → Asked env call key req
      → w.db ≡ l.world.db
      → w.log ≡ l.world.log ++ called key.id req ∷ []
      → Rounds (Unread env) w v
      → Starts env call key l v

try_key-Starts :
    (env : Env) (call : Call) (key : Key) (n : ℕ) (l : Loop)
    → Starts env call key l (try_key env call key n l)
unfolding try_key do_request
try_key-Starts env call key n l = go (env.decrypt key.encrypted_key) refl
  where
    go :
        (s : Option Text)
        → env.decrypt key.encrypted_key ≡ s
        → Starts env call key l (key_verdict env call key n l s)
    go none e = unreadable
    go (some secret) e =
        calling _ _ (secret, e, refl) refl refl
          (try_reply-Rounds (Unread env) env call key n l.world.clock _ l _
            (λ resp got bad. (l.world.calls, _, resp, got, bad)))

-- The round of the first key, and then the others.
Starts-then :
    {env : Env} {call : Call} {key : Key} {l : Loop} {v : Verdict} (keys : List Key)
    (onward : Loop → World)
    → ((l' : Loop) → Serves (Asked env call) (Unread env) keys l'.world (onward l'))
    → Starts env call key l v
    → Serves
        (Asked env call)
        (Unread env)
        (key ∷ keys)
        l.world
        (elim v [ go_on l' ↦ onward l' | stop w ↦ w ])
Starts-then {l = l} keys onward later unreadable = Serves-passed (later l)
Starts-then {v = go_on l'} keys onward later (calling req w asked same log quiet) =
    Serves-placed req asked same log (Serves-after quiet (later l'))
Starts-then {v = stop u} keys onward later (calling req w asked same log closes) =
    Serves-placed req asked same log (Serves-of_Closes keys closes)

try_keys-Serves :
    (env : Env) (call : Call) (count tried : ℕ) (keys : List Key) (l : Loop)
    → Serves (Asked env call) (Unread env) keys l.world (try_keys env call count tried keys l)
unfolding try_keys
try_keys-Serves env call count tried [] l =
    Serves-of_Closes [] (inr (all_failed-Answers env call count l))
try_keys-Serves env call count tried (key ∷ keys) l =
    Starts-then keys (try_keys env call count (suc tried) keys)
      (try_keys-Serves env call count (suc tried) keys) (try_key-Starts env call key (suc tried) l)

serve_keys-Serves :
    (env : Env) (call : Call) (r : RequestRecord) (keys : List Key) (w : World)
    → Serves (Asked env call) (Unread env) keys w (serve_keys env call r keys w)
unfolding serve_keys no_key
serve_keys-Serves env call r [] w = Serves-of_Closes [] (
    inr (
      Answers-after (finish_unavailable-Quiet r call.started _ w) (write_json-Answers env 503 _ _)))
serve_keys-Serves env call r (key ∷ keys) w =
    try_keys-Serves env call _ 0 (key ∷ keys) (no_loop r w)

-- The database in which the keys of a call are selected: the request is recorded, and the keys whose
-- cooling is over are half open.
abbrev pub selecting_db : Call → World → Db
selecting_db call w = mark_half_open_due w.clock (after w.db (begin_request (new_record call) w.db))

pub serve-Serves :
    (env : Env) (call : Call) (w : World)
    → Serves
        (Asked env call)
        (Unread env)
        (eligible_keys (selecting_db call w))
        w
        (serve env call w)
unfolding serve
serve-Serves env call w =
    Serves-after
      (Quiet-trans (with_db-Quiet w _ (next here (begin (new_record call))))
        (with_db-Quiet _ _ (next here (half_open w.clock))))
      (serve_keys-Serves env call _ _ _)
