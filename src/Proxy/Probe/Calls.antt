-- ===== src/Proxy/Probe/Calls.antt =====
-- `TestKey` of internal/proxy/service.go calls the upstream with the given key alone, and moves the
-- database by steps of the store.
use opencode_proxy.Base.{
  ℕ, ◌≡◌, refl, ◌∙◌, sym, ap, Bool, true, false, List, [], ◌∷◌, ◌++◌, All, All-append, append_assoc,
  append-nil, Option, none, some, if◌then◌else◌,
}
use opencode_proxy.Text.{Text}
use opencode_proxy.Store.Types.{Key, AuthState, ControlState}
use opencode_proxy.Store.Steps.{Reach, here, next, Reach-trans, check, used}
use opencode_proxy.Proxy.Classifier.{classify}
use opencode_proxy.Proxy.World.{
  Env, World, Response, Event, called, responded, sent, UpstreamRequest, pass, do_request,
}
use opencode_proxy.Proxy.Models.{is_success, models_request}
use opencode_proxy.Proxy.Models.Serving.{refused-Quiet}
use opencode_proxy.Proxy.Failover.Answers.{Quiet, Quiet-refl}
use opencode_proxy.Proxy.Failover.Storing.{fail_key-Quiet}
use opencode_proxy.Proxy.Probe.{
  TestResult, Check, unchecked, checked, check_of_reply, check_models, probe_of_response,
  probe_of_reply, probe_inference, probe_request, after_check, test_with, test_key, probe_body,
}

-- A call with a key whose id has the property.
abbrev pub IsCallOf : (ℕ → Type 0) → Event → Type 0
IsCallOf P (called id req) = P id
IsCallOf P (responded status h) = ⊥
IsCallOf P (sent b) = ⊥

-- Only calls with such keys cross the network, and the database moves by steps of the store.
pub record Probes (P : ℕ → Type 0) (w v : World) : Type 0 where
  pub reach : Reach w.db v.db
  pub calls : List Event
  pub extends : v.log ≡ w.log ++ calls
  pub of_key : All (IsCallOf P) calls

module _ {P : ℕ → Type 0} where
  pub Probes-of_Quiet : {w v : World} → Quiet w v → Probes P w v
  Probes-of_Quiet {w} q = record {
    reach = q.reach;
    calls = [];
    extends = q.same ∙ sym (append-nil w.log);
    of_key = tt;
  }

  pub Probes-trans : {u v w : World} → Probes P u v → Probes P v w → Probes P u w
  Probes-trans {u} a b = record {
    reach = Reach-trans a.reach b.reach;
    calls = a.calls ++ b.calls;
    extends = b.extends ∙ (ap (λ l. l ++ b.calls) a.extends ∙ append_assoc u.log a.calls b.calls);
    of_key = All-append (IsCallOf P) a.calls b.calls a.of_key b.of_key;
  }

  do_request-Probes :
      (env : Env) (id : ℕ) (req : UpstreamRequest) (w : World)
      → P id
      → Probes P w (do_request env id req w).0
  unfolding do_request
  do_request-Probes env id req w p = record {
    reach = here;
    calls = called id req ∷ [];
    extends = refl;
    of_key = (p, tt);
  }

abbrev check_world : Check → World
check_world (unchecked r w) = w
check_world (checked w) = w

check-if :
    (b : Bool) (u v w : World) (r : TestResult)
    → Quiet u v
    → Quiet u w
    → Quiet u (check_world (if b then checked v else unchecked r w))
check-if true u v w r x y = x
check-if false u v w r x y = y

check_of_reply-Quiet :
    (env : Env) (key : Key) (reply : Option Response) (w : World)
    → Quiet w (check_world (check_of_reply env key w reply))
check_of_reply-Quiet env key none w = record {
  reach =
      next here (check key.id AuthState.unknown ControlState.degraded env.network_message w.clock);
  same = refl;
}
check_of_reply-Quiet env key (some resp) w =
    check-if (is_success resp.status) w _ _ _
      (record {
        reach = next here (check key.id AuthState.valid ControlState.reachable [] _);
        same = refl;
      })
      (passed (
        refused-Quiet _ key
          (classify env.codec resp.status resp.header (probe_body resp.body)
            (pass resp.transfer w).clock)
          (pass resp.transfer w) refl))
  where
    passed : {v : World} → Quiet (pass resp.transfer w) v → Quiet w v
    passed q = record { reach = q.reach; same = q.same }

probe-if :
    (failed ok : Bool) (w : World) (a b c : TestResult × World)
    → Quiet w a.1
    → Quiet w b.1
    → Quiet w c.1
    → Quiet w (if failed then a else if ok then b else c).1
probe-if true ok w a b c x y z = x
probe-if false true w a b c x y z = y
probe-if false false w a b c x y z = z

probe_of_response-Quiet :
    (env : Env) (key : Key) (resp : Response) (w : World)
    → Quiet w (probe_of_response env key resp w).1
probe_of_response-Quiet env key resp w =
    probe-if _ (is_success resp.status) w _ _ _ (fail_key-Quiet key _ w)
      (record { reach = next here (used key.id w.clock); same = refl }) (Quiet-refl w)

probe_of_reply-Quiet :
    (env : Env) (key : Key) (reply : Option Response) (w : World)
    → Quiet w (probe_of_reply env key w reply).1
probe_of_reply-Quiet env key none w = Quiet-refl w
probe_of_reply-Quiet env key (some resp) w =
    let q = probe_of_response-Quiet env key resp (pass resp.transfer w) in
    record { reach = q.reach; same = q.same }

module _ {P : ℕ → Type 0} (env : Env) (key : Key) (secret : Text) (p : P key.id) where
  check_models-Probes : (w : World) → Probes P w (check_world (check_models env key secret w))
  unfolding check_models
  check_models-Probes w =
      let r = do_request env key.id (models_request env secret) w in
      Probes-trans (do_request-Probes env key.id (models_request env secret) w p)
        (Probes-of_Quiet (check_of_reply-Quiet env key r.1 r.0))

  probe_inference-Probes : (w : World) → Probes P w (probe_inference env key secret w).1
  unfolding probe_inference
  probe_inference-Probes w =
      let r = do_request env key.id (probe_request env secret w.db) w in
      Probes-trans (do_request-Probes env key.id (probe_request env secret w.db) w p)
        (Probes-of_Quiet (probe_of_reply-Quiet env key r.1 r.0))

  after_check-Probes :
      (inference : Bool) (w : World) (c : Check)
      → Probes P w (check_world c)
      → Probes P w (after_check env key secret inference c).1
  after_check-Probes inference w (unchecked r v) h = h
  after_check-Probes false w (checked v) h = h
  after_check-Probes true w (checked v) h = Probes-trans h (probe_inference-Probes v)

-- A test of a key calls the upstream with that key alone, sends nothing to a client, and moves the
-- database only by steps of the store.
pub test_key-Probes :
    (env : Env) (key : Key) (inference : Bool) (w : World)
    → Probes (λ id. id ≡ key.id) w (test_key env key inference w).1
unfolding test_key
test_key-Probes env key inference w = go (env.decrypt key.encrypted_key)
  where
    go : (s : Option Text) → Probes (λ id. id ≡ key.id) w (test_with env key inference w s).1
    go none = Probes-of_Quiet (Quiet-refl w)
    go (some secret) =
        after_check-Probes env key secret refl inference w (check_models env key secret w)
          (check_models-Probes env key secret refl w)
