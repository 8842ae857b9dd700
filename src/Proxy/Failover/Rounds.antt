-- ===== src/Proxy/Failover/Rounds.antt =====
-- What a round of the loop of `HandleInference` (internal/proxy/service.go) does once its call of the
-- upstream has returned.
use opencode_proxy.Base.{
  ℕ, ◌≡◌, ◌∙◌, refl, sym, inl, inr, Bool, true, false, Option, none, some, subst, if◌then◌else◌,
  ltb,
}
use opencode_proxy.Text.{Text}
use opencode_proxy.Time.{Time}
use opencode_proxy.Store.Types.{Key, RequestRecord}
use opencode_proxy.Store.Steps.{here}
use opencode_proxy.Proxy.Classifier.{Classification}
use opencode_proxy.Proxy.World.{Env, World, Response, pass}
use opencode_proxy.Proxy.Request.{read_all_limited}
use opencode_proxy.Proxy.Stream.{StreamResult}
use opencode_proxy.Proxy.Inference.{
  Call, Loop, Verdict, go_on, stop, try_reply, try_stream, try_body, network_failure,
  stream_failover, stream_done, body_failover, body_done, use_key, is_event_stream, stream_verdict,
  body_verdict, response_limit,
}
use opencode_proxy.Proxy.Failover.Answers.{
  Quiet, Answers, Quiet-refl, Quiet-trans, Sends-of_Quiet, Answers-after, Answers-then,
  write_header-Answers, write-Sends, write_json-Answers,
}
use opencode_proxy.Proxy.Failover.Calls.{Closes}
use opencode_proxy.Proxy.Failover.Forwarding.{
  Forwarded, IsUnreadable, answered_stream, unread, refused_key, forward_stream-Forwarded,
}
use opencode_proxy.Proxy.Failover.Storing.{
  log_attempt-Quiet, finish-Quiet, fail_key-Quiet, use_key-Quiet, settle_key-Quiet,
}

-- What is left of a round behind its call: it goes on quietly, or it answers, or it does not answer for
-- the reason `U`.
abbrev pub Rounds : Type 0 → World → Verdict → Type 0
Rounds U w (go_on l) = Quiet w l.world
Rounds U w (stop v) = Closes U w v

module _ (call : Call) (key : Key) (n : ℕ) (t : Time) (resp : Response) where
  stream_failover-Quiet :
      (c : Classification) (e : Text) (l : Loop) (w : World)
      → Quiet w (stream_failover call key n t resp c e l w).world
  unfolding stream_failover
  stream_failover-Quiet c e l w = Quiet-trans (fail_key-Quiet key c w) (log_attempt-Quiet _ _)

  body_failover-Quiet :
      (body : Text) (c : Classification) (l : Loop) (w : World)
      → Quiet w (body_failover call key n t resp body c l w).world
  unfolding body_failover
  body_failover-Quiet body c l w = Quiet-trans (fail_key-Quiet key c w) (log_attempt-Quiet _ _)

  stream_done-Quiet :
      (result : StreamResult) (r : RequestRecord) (w : World)
      → Quiet w (stream_done call key n t resp result r w)
  unfolding stream_done
  stream_done-Quiet result r w =
      Quiet-trans (Quiet-trans (settle_key-Quiet key result w) (log_attempt-Quiet _ _))
        (finish-Quiet _ result.usage call.started _)

  body_done-Answers :
      (env : Env) (body : Text) (c : Classification) (r : RequestRecord) (w : World)
      → Answers w (body_done env call key n t resp body c r w)
  unfolding body_done
  body_done-Answers env body c r w =
      Answers-after
        (Quiet-trans (Quiet-trans (log_attempt-Quiet _ w) (used_if-Quiet (ltb resp.status 400) _))
          (Quiet-trans (finish-Quiet _ _ call.started _) (record { reach = here; same = refl })))
        (Answers-then (write_header-Answers resp.status _) (write-Sends env body _))
    where
      used_if-Quiet : (b : Bool) (v : World) → Quiet v (if b then use_key key v else v)
      used_if-Quiet true v = use_key-Quiet key v
      used_if-Quiet false v = Quiet-refl v

network_failure-Answers :
    (env : Env) (call : Call) (key : Key) (n : ℕ) (t : Time) (r : RequestRecord) (w : World)
    → Answers w (network_failure env call key n t r w)
unfolding network_failure
network_failure-Answers env call key n t r w =
    Answers-after (Quiet-trans (log_attempt-Quiet _ w) (finish-Quiet _ _ call.started _))
      (write_json-Answers env 502 _ _)

Rounds-if :
    (U : Type 0) (b : Bool) (w : World) (l : Loop) (v : World)
    → (b ≡ true → Quiet w l.world)
    → (b ≡ false → Closes U w v)
    → Rounds U w (if b then go_on l else stop v)
Rounds-if U true w l v q c = q refl
Rounds-if U false w l v q c = c refl

Quiet-of_eq : {w v : World} → v ≡ w → Quiet w v
Quiet-of_eq {w} {v} e = subst (λ x. Quiet w x) (sym e) (Quiet-refl w)

bool_apart : true ≡ false → ⊥
bool_apart e = cc

module _ (call : Call) (key : Key) (n : ℕ) (t : Time) (resp : Response) (l : Loop)
    {U : Type 0} where
  Forwarded-Rounds :
      (r : StreamResult × World) (w : World)
      → (IsUnreadable resp → U)
      → Forwarded resp w r
      → Rounds U w (stream_verdict call key n t resp r.0 l r.1 r.0.first_error)
  Forwarded-Rounds r w why (answered_stream e a) =
      subst (λ f. Rounds U w (stream_verdict call key n t resp r.0 l r.1 f)) (sym e)
        (inr
          (Answers-then a (Sends-of_Quiet (stream_done-Quiet call key n t resp r.0 l.request r.1))))
  Forwarded-Rounds r w why (unread bad e same) =
      subst (λ f. Rounds U w (stream_verdict call key n t resp r.0 l r.1 f)) (sym e)
        (inl (
          why bad,
          Quiet-trans (Quiet-of_eq same) (stream_done-Quiet call key n t resp r.0 l.request r.1),
        ))
  Forwarded-Rounds r w why (refused_key c e k same) =
      subst (λ f. Rounds U w (stream_verdict call key n t resp r.0 l r.1 f)) (sym e)
        (Rounds-if _ _ w _ _
          (λ _.
            Quiet-trans (Quiet-of_eq same)
              (stream_failover-Quiet call key n t resp c r.0.first_event l r.1))
          (λ no. absurd (bool_apart (sym k ∙ no))))

Rounds-either :
    (U : Type 0) (b : Bool) (v u : Verdict) (w : World)
    → Rounds U w v
    → Rounds U w u
    → Rounds U w (if b then v else u)
Rounds-either U true v u w x y = x
Rounds-either U false v u w x y = y

try_stream-Rounds :
    (U : Type 0) (env : Env) (call : Call) (key : Key) (n : ℕ) (t : Time) (resp : Response)
    (l : Loop) (w : World)
    → (IsUnreadable resp → U)
    → Rounds U w (try_stream env call key n t resp l w)
unfolding try_stream
try_stream-Rounds U env call key n t resp l w why =
    Forwarded-Rounds call key n t resp l _ w why
      (forward_stream-Forwarded env call.protocol resp call.started w)

pub pass-Quiet : (d : ℕ) (w : World) → Quiet w (pass d w)
pass-Quiet d w = record { reach = here; same = refl }

try_body-Rounds :
    (U : Type 0) (env : Env) (call : Call) (key : Key) (n : ℕ) (t : Time) (resp : Response)
    (l : Loop) (w : World)
    → Rounds U w (try_body env call key n t resp l w)
unfolding try_body
try_body-Rounds U env call key n t resp l w0 = go (read_all_limited response_limit resp.body)
  where
    w : World
    w = pass resp.transfer w0

    go : (b : Option Text) → Rounds U w0 (body_verdict env call key n t resp l w b)
    go none = inr (Answers-after (pass-Quiet _ w0) (write_json-Answers env 502 _ w))
    go (some body) =
        Rounds-if _ _ w0 _ _
          (λ _. Quiet-trans (pass-Quiet _ w0) (body_failover-Quiet call key n t resp body _ l w))
          (λ _. inr (
            Answers-after (pass-Quiet _ w0)
              (body_done-Answers call key n t resp env body _ l.request w)))

pub try_reply-Rounds :
    (U : Type 0) (env : Env) (call : Call) (key : Key) (n : ℕ) (t : Time) (reply : Option Response)
    (l : Loop) (w : World)
    → ((resp : Response) → reply ≡ some resp → IsUnreadable resp → U)
    → Rounds U w (try_reply env call key n t reply l w)
unfolding try_reply
try_reply-Rounds U env call key n t none l w why =
    inr (network_failure-Answers env call key n t l.request w)
try_reply-Rounds U env call key n t (some resp) l w why =
    Rounds-either U (is_event_stream call.meta resp) _ _ w
      (try_stream-Rounds U env call key n t resp l w (why resp refl))
      (try_body-Rounds U env call key n t resp l w)
