-- ===== src/Proxy/Failover/Requests.antt =====
-- What `HandleInference` of internal/proxy/service.go does with a request, on each of its branches.
use opencode_proxy.Base.{◌≡◌, refl, sym, subst}
use opencode_proxy.Text.{Text, codes}
use opencode_proxy.Store.Types.{Protocol}
use opencode_proxy.Store.Routing.{eligible_keys}
use opencode_proxy.Store.Steps.{Reach, here, Reach_invariant}
use opencode_proxy.Proxy.World.{Env, World, Incoming, set_header}
use opencode_proxy.Proxy.Request.{within, failing, Limited, read_limited}
use opencode_proxy.Proxy.Inference.{Call, handle_inference, admitted, prepared}
use opencode_proxy.Proxy.Failover.Answers.{
  set_header-Quiet, set_header-Replies, write_json-Replies, Replies,
}
use opencode_proxy.Proxy.Failover.Calls.{Serves, Serves-after}
use opencode_proxy.Proxy.Failover.Order.{Asked, Unread, selecting_db, serve-Serves}
use opencode_proxy.Store.Consistency.{Step-IsConsistent}
use opencode_proxy.Store.Consistency.Tables.{IsConsistent}

module _ (env : Env) (protocol : Protocol) (incoming : Incoming) (id : Text) (w : World) where
  abbrev pub announced : World
  announced = set_header (codes "X-OpencodeProxy-Request-Id") id w

  abbrev pub body_read : Limited
  body_read = read_limited env.broken_message env.max_request_bytes incoming.body

  abbrev pub prepared_call : Text → Call
  prepared_call content = prepared env protocol incoming id content announced

  -- A request whose body is read within the limit: the handler calls the upstream only with keys of
  -- `EligibleKeys`, taken after the request was recorded and the keys due were opened, in their order
  -- and each at most once; each call has the key's own secret, the client's headers as they are
  -- passed on and the prepared body; behind the last call there is one status line and then only
  -- bytes, or nothing at all where the first event of a body of the upstream cannot be read; and the
  -- database is reached by steps of the store.
  pub handle_inference-Serves :
      (content : Text)
      → body_read ≡ within content
      → Serves
          (Asked env (prepared_call content))
          (Unread env)
          (eligible_keys (selecting_db (prepared_call content) announced))
          w
          (handle_inference env protocol incoming id w)
  unfolding handle_inference
  handle_inference-Serves content e =
      subst
        (λ r.
          Serves (Asked env (prepared_call content)) (Unread env)
            (eligible_keys (selecting_db (prepared_call content) announced)) w
            (admitted env protocol incoming id announced r))
        (sym e)
        (Serves-after (set_header-Quiet _ id w)
          (serve-Serves env (prepared_call content) announced))

  -- A request whose body is refused: no call of the upstream, the status 413 and then only bytes, and
  -- the database is as it was.
  pub handle_inference-Replies :
      (message : Text)
      → body_read ≡ failing message
      → Replies 413 w (handle_inference env protocol incoming id w)
  unfolding handle_inference
  handle_inference-Replies message e =
      subst (λ r. Replies 413 w (admitted env protocol incoming id announced r)) (sym e)
        (set_header-Replies _ id 413 w
          (admitted env protocol incoming id announced (failing message))
          (write_json-Replies env 413 _ announced))

  pub handle_inference-Reach : Reach w.db (handle_inference env protocol incoming id w).db
  handle_inference-Reach = go body_read refl
    where
      go :
          (r : Limited)
          → body_read ≡ r
          → Reach w.db (handle_inference env protocol incoming id w).db
      go (within content) e = (handle_inference-Serves content e).reach
      go (failing message) e =
          subst (λ db. Reach w.db db) (sym (handle_inference-Replies message e).4) here

  -- A request keeps the database consistent, whatever the upstream and the client's connection do.
  pub handle_inference-IsConsistent :
      IsConsistent w.db → IsConsistent (handle_inference env protocol incoming id w).db
  handle_inference-IsConsistent h = Reach_invariant Step-IsConsistent h handle_inference-Reach
