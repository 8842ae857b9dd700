-- ===== src/Proxy/Failover/Forwarding.antt =====
-- A stream that `forwardStream` (internal/proxy/service.go) forwards is either answered, or given up
-- before anything is sent.
use opencode_proxy.Base.{
  ℕ, suc, arith, length, ◌≡◌, refl, inl, inr, Bool, true, false, List, [], ◌∷◌, Option, none, some,
  Bool-cases, if◌then◌else◌,
}
use opencode_proxy.Text.{Text}
use opencode_proxy.Time.{Time}
use opencode_proxy.Store.Types.{Protocol}
use opencode_proxy.Store.Steps.{here}
use opencode_proxy.Proxy.Classifier.{Classification}
use opencode_proxy.Proxy.Header.{copy_response_headers}
use opencode_proxy.Proxy.Sse.{Read, ReadError, event_data, read_events, event_limit}
use opencode_proxy.Proxy.Sse.Reading.{IsComplete, read_events-IsComplete}
use opencode_proxy.Proxy.World.{Env, World, Response, write, write_header, pass}
use opencode_proxy.Proxy.Stream.{
  StreamResult, Progress, round_end, classify_data, forward_rest, forward_from, forward_first,
  forward_reads, forward_stream, observe_event, is_empty, is_key_failure, is_failed_read,
}
use opencode_proxy.Proxy.Failover.Answers.{
  Sends, Answers, Quiet-refl, Sends-of_Quiet, Sends-trans, Answers-after, Answers-then,
  write_header-Answers, write-Sends,
}

written_if :
    (env : Env) (b : Bool) (e : Text) (w : World)
    → Sends w (if b then (w, true) else write env e w).0
written_if env true e w = Sends-of_Quiet (Quiet-refl w)
written_if env false e w = write-Sends env e w

-- What a round makes of the forwarding of the rest.
abbrev Sent : World → StreamResult × World → Type 0
Sent w r = (r.0.first_error ≡ none) × Sends w r.1

Sent-end :
    (b : Bool) (f : Option ReadError) (w : World) (onward stopped unwritten : StreamResult × World)
    → Sent w onward
    → Sent w stopped
    → Sent w unwritten
    → Sent w (round_end b f onward stopped unwritten)
unfolding round_end
Sent-end false f w onward stopped unwritten a b c = c
Sent-end true none w onward stopped unwritten a b c = a
Sent-end true (some e) w onward stopped unwritten a b c = b

forward_rest-Sent :
    (env : Env) (protocol : Protocol) (resp : Response) (ttft : Option ℕ) (rs : List Read)
    (p : Progress) (w : World)
    → Sent w (forward_rest env protocol resp ttft rs p w)
unfolding forward_rest
forward_rest-Sent env protocol resp ttft [] p w = (refl, Sends-of_Quiet (Quiet-refl w))
forward_rest-Sent env protocol resp ttft (r ∷ rs) p w =
    let p' = observe_event env protocol resp (event_data r.event) w p in
    let first = written_if env (is_empty r.event) r.event w in
    let later = forward_rest-Sent env protocol resp ttft rs p' _ in
    Sent-end _ r.failure w _ _ _ (later.0, Sends-trans first later.1) (refl, first) (refl, first)

-- An answer to the client, by which no key is refused.
abbrev Answered : World → StreamResult × World → Type 0
Answered w r = (r.0.first_error ≡ none) × Answers w r.1

forward_from-Answered :
    (env : Env) (protocol : Protocol) (resp : Response) (started : Time) (r : Read) (rs : List Read)
    (w : World)
    → Answered w (forward_from env protocol resp started r rs w)
unfolding forward_from
forward_from-Answered env protocol resp started r rs w0 = elim (Bool-cases (is_empty r.event)) [
  | inl e ↦ rw e (
      let later = forward_rest-Sent env protocol resp none rs _ _ in
      (later.0, Answers-then head (Sends-trans (pass-Sends _ _) later.1)))
  | inr e ↦ rw e (elim (Bool-cases (write env r.event w).1) [
    | inl ok ↦ rw ok (
        let later = forward_rest-Sent env protocol resp _ rs _ _ in
        (
          later.0,
          Answers-then head
              (Sends-trans (Sends-trans (write-Sends env r.event w) (pass-Sends _ _)) later.1),
        ))
    | inr lost ↦ rw lost (refl, Answers-then head (write-Sends env r.event w))
  ])
]
  where
    w : World
    w =
        write_header resp.status
          (record w0 { header = copy_response_headers w0.header resp.header })

    head : Answers w0 w
    head = Answers-after (record { reach = here; same = refl }) (write_header-Answers resp.status _)

    pass-Sends : (d : ℕ) (v : World) → Sends v (pass d v)
    pass-Sends d v = Sends-of_Quiet (record { reach = here; same = refl })

abbrev reads_of : Response → List Read
reads_of resp =
    read_events (suc (length resp.body.content)) event_limit resp.body.is_broken resp.body.content

-- The first event of the body cannot be read: the connection breaks off, or the event is over the
-- limit.
abbrev pub IsUnreadable : Response → Type 0
IsUnreadable resp =
    (r : Read) × (rs : List Read) × (reads_of resp ≡ r ∷ rs) × (is_failed_read r.failure ≡ true)

-- What a forwarded stream does: it answers; or its first event cannot be read; or its first event is a
-- failure of the key. In the last two cases nothing has happened yet.
pub data Forwarded (resp : Response) (w : World) (r : StreamResult × World) : Type 0 where
  answered_stream : r.0.first_error ≡ none → Answers w r.1 → Forwarded resp w r
  unread : IsUnreadable resp → r.0.first_error ≡ none → r.1 ≡ w → Forwarded resp w r
  refused_key :
      (c : Classification)
      → r.0.first_error ≡ some c
      → is_key_failure c.kind ≡ true
      → r.1 ≡ w
      → Forwarded resp w r

Forwarded-if :
    (bad empty key_failure : Bool) (resp : Response) (w : World) (r f k : StreamResult × World)
    → (bad ≡ true → Forwarded resp w r)
    → Forwarded resp w f
    → (key_failure ≡ true → Forwarded resp w k)
    → Forwarded resp w (if bad then r else if empty then f else if key_failure then k else f)
Forwarded-if true b c resp w r f k hr hf hk = hr refl
Forwarded-if false true c resp w r f k hr hf hk = hf
Forwarded-if false false true resp w r f k hr hf hk = hk refl
Forwarded-if false false false resp w r f k hr hf hk = hf

forward_first-Forwarded :
    (env : Env) (protocol : Protocol) (resp : Response) (started : Time) (r : Read) (rs : List Read)
    (w : World)
    → reads_of resp ≡ r ∷ rs
    → Forwarded resp w (forward_first env protocol resp started r rs w)
unfolding forward_first
forward_first-Forwarded env protocol resp started r rs w e =
    let f = forward_from-Answered env protocol resp started r rs w in
    let c = classify_data env resp (event_data r.event) w in
    Forwarded-if (is_failed_read r.failure) (is_empty (event_data r.event)) (is_key_failure c.kind)
      resp w _ (forward_from env protocol resp started r rs w) _
      (λ bad. unread (r, rs, e, bad) refl refl) (answered_stream f.0 f.1)
      (λ k. refused_key c refl k refl)

pub forward_stream-Forwarded :
    (env : Env) (protocol : Protocol) (resp : Response) (started : Time) (w : World)
    → Forwarded resp w (forward_stream env protocol resp started w)
unfolding forward_stream
forward_stream-Forwarded env protocol resp started w = go (reads_of resp) refl (
    read_events-IsComplete (suc (length resp.body.content)) event_limit resp.body.is_broken
      resp.body.content (omega arith))
  where
    go :
        (rs : List Read)
        → reads_of resp ≡ rs
        → IsComplete rs
        → Forwarded resp w (forward_reads env protocol resp started rs w)
    go [] e c = elim c [ ]
    go (r ∷ rs) e c = forward_first-Forwarded env protocol resp started r rs w e
