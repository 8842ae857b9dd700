-- ===== src/Proxy/Stream/Relay.antt =====
-- What `forwardStream` of internal/proxy/service.go has sent when it reports no error.
use opencode_proxy.Base.{
  ℕ, suc, ◌≡◌, ◌≢◌, refl, ◌∙◌, sym, subst, inl, inr, Bool, true, false, List, [], ◌∷◌, ◌++◌, Option,
  none, some, append_assoc, append-nil, if◌then◌else◌, length, arith,
}
use opencode_proxy.Text.{Text}
use opencode_proxy.Time.{Time}
use opencode_proxy.Store.Types.{Protocol}
use opencode_proxy.Store.Telemetry.{no_usage}
use opencode_proxy.Proxy.Header.{copy_response_headers}
use opencode_proxy.Proxy.Sse.{Read, ReadError, eof, broken, too_large, event_data, event_limit}
use opencode_proxy.Proxy.Sse.Reading.{
  IsComplete, all_events, NoneTooLarge, read_events-IsComplete, all_events-read_events,
}
use opencode_proxy.Proxy.World.{Env, World, Response, Event, responded, write_header, pass}
use opencode_proxy.Proxy.Stream.Copies.{
  sent_bytes, Copies, Copies-trans, write-Copies, written-Copies,
}
use opencode_proxy.Proxy.Stream.{
  StreamResult, Progress, round_end, forward_rest, forward_from, forward_first, forward_reads,
  forward_stream, observe_event, is_empty, is_failed_read, refused, no_error, is_key_failure,
  classify_data,
}

-- A sequence of reads that ends at its first error.
abbrev Ends : List Read → Type 0
Ends [] = Unit
Ends (r ∷ rs) = (r.failure ≢ none → rs ≡ []) × Ends rs

Ends-of_IsComplete : (rs : List Read) → IsComplete rs → Ends rs
Ends-of_IsComplete [] c = elim c [ ]
Ends-of_IsComplete (r ∷ rs) (inl (e, c)) = ((λ n. elim (n e) [ ]), Ends-of_IsComplete rs c)
Ends-of_IsComplete (r ∷ rs) (inr (n, e)) = ((λ _. e), rw e tt)

-- What has happened when a part of the loop reports no error.
abbrev Whole : List Read → World → StreamResult × World → Type 0
Whole rs w r = r.0.copy_err ≡ false → Copies (all_events rs) w r.1 × NoneTooLarge rs

Whole-end :
    (ok : Bool) (f : Option ReadError) (r : Read) (rs : List Read) (u w : World)
    (onward stopped unwritten : StreamResult × World)
    → r.failure ≡ f
    → (ok ≡ true → Copies r.event u w)
    → Whole rs w onward
    → stopped.1 ≡ w
    → stopped.0.copy_err ≡ is_failed_read f
    → unwritten.0.copy_err ≡ true
    → (r.failure ≢ none → rs ≡ [])
    → Whole (r ∷ rs) u (round_end ok f onward stopped unwritten)
unfolding round_end
Whole-end false f r rs u w onward stopped unwritten e c later s se ue ends h = cc
Whole-end true none r rs u w onward stopped unwritten e c later s se ue ends h =
    let (copies, small) = later h in (Copies-trans (c refl) copies, ((λ t. cc), small))
Whole-end true (some eof) r rs u w onward stopped unwritten e c later s se ue ends h =
    let nothing : rs ≡ [] = ends (λ n. cc) in
    rw (s, nothing) (subst (λ b. Copies b u w) (sym (append-nil r.event)) (c refl), ((λ t. cc), tt))
Whole-end true (some broken) r rs u w onward stopped unwritten e c later s se ue ends h = cc
Whole-end true (some too_large) r rs u w onward stopped unwritten e c later s se ue ends h = cc

forward_rest-Whole :
    (env : Env) (protocol : Protocol) (resp : Response) (ttft : Option ℕ) (rs : List Read)
    (p : Progress) (w : World)
    → Ends rs
    → Whole rs w (forward_rest env protocol resp ttft rs p w)
unfolding forward_rest
forward_rest-Whole env protocol resp ttft [] p w c =
    λ h. (record { out = []; extends = sym (append-nil w.log); content = refl }, tt)
forward_rest-Whole env protocol resp ttft (r ∷ rs) p w c =
    let p' = observe_event env protocol resp (event_data r.event) w p in
    Whole-end _ r.failure r rs w _ _ _ _ refl (written-Copies env r.event w)
      (forward_rest-Whole env protocol resp ttft rs p' _ c.1) refl refl refl c.0

-- The status line and the headers of the response, and then exactly these bytes.
pub record Relays (resp : Response) (b : Text) (w v : World) : Type 0 where
  pub out : List Event
  pub extends :
      v.log ≡ w.log ++ responded resp.status (copy_response_headers w.header resp.header) ∷ out
  pub content : sent_bytes out ≡ b

abbrev WholeReply : Response → List Read → World → StreamResult × World → Type 0
WholeReply resp rs w r = r.0.copy_err ≡ false → Relays resp (all_events rs) w r.1 × NoneTooLarge rs

Relays-of_Copies :
    (resp : Response) (b : Text) (w v : World)
    → Copies b
        (write_header resp.status
          (record w { header = copy_response_headers w.header resp.header }))
        v
    → Relays resp b w v
unfolding write_header
Relays-of_Copies resp b w v c = record {
  out = c.out;
  extends =
      c.extends
      ∙ append_assoc w.log (responded resp.status (copy_response_headers w.header resp.header) ∷ [])
          c.out;
  content = c.content;
}

from-Whole :
    (resp : Response) (r : Read) (rs : List Read) (w head v : World) (empty ok : Bool)
    (unseen onward lost : StreamResult × World)
    → ((b : Text) (x : World) → Copies b head x → Relays resp b w x)
    → (empty ≡ true → r.event ≡ [])
    → (ok ≡ true → Copies r.event head v)
    → (r.failure ≢ some too_large)
    → Whole rs head unseen
    → Whole rs v onward
    → lost.0.copy_err ≡ true
    → WholeReply resp (r ∷ rs) w (if empty then unseen else if ok then onward else lost)
from-Whole resp r rs w head v true ok unseen onward lost reply none_there c small u o l h =
    let (copies, smaller) = u h in
    (
      subst (λ b. Relays resp (b ++ all_events rs) w unseen.1) (sym (none_there refl))
          (reply _ _ copies),
      (small, smaller),
    )
from-Whole resp r rs w head v false true unseen onward lost reply none_there c small u o l h =
    let (copies, smaller) = o h in (reply _ _ (Copies-trans (c refl) copies), (small, smaller))
from-Whole resp r rs w head v false false unseen onward lost reply none_there c small u o l h = cc

is_empty-nil : (e : Text) → is_empty e ≡ true → e ≡ []
is_empty-nil [] h = refl
is_empty-nil (c ∷ e) h = cc

passed-Whole :
    (env : Env) (protocol : Protocol) (resp : Response) (ttft : Option ℕ) (rs : List Read)
    (p : Progress) (d : ℕ) (w : World)
    → Ends rs
    → Whole rs w (forward_rest env protocol resp ttft rs p (pass d w))
passed-Whole env protocol resp ttft rs p d w ends h =
    let (copies, small) = forward_rest-Whole env protocol resp ttft rs p (pass d w) ends h in
    (record { out = copies.out; extends = copies.extends; content = copies.content }, small)

forward_from-WholeReply :
    (env : Env) (protocol : Protocol) (resp : Response) (started : Time) (r : Read) (rs : List Read)
    (w : World)
    → r.failure ≢ some too_large
    → Ends rs
    → WholeReply resp (r ∷ rs) w (forward_from env protocol resp started r rs w)
unfolding forward_from
forward_from-WholeReply env protocol resp started r rs w small ends =
    from-Whole resp r rs w _ _ (is_empty r.event) _ _ _ _ (λ b x c. Relays-of_Copies resp b w x c)
      (is_empty-nil r.event) (write-Copies env r.event _) small
      (passed-Whole env protocol resp none rs _ resp.transfer _ ends)
      (passed-Whole env protocol resp _ rs _ resp.transfer _ ends) refl

failed-too_large : (f : Option ReadError) → is_failed_read f ≡ false → f ≢ some too_large
failed-too_large none h = λ e. cc
failed-too_large (some eof) h = λ e. cc
failed-too_large (some broken) h = λ e. cc
failed-too_large (some too_large) h = λ e. cc

first-Whole :
    (bad empty kept_back : Bool) (resp : Response) (rs : List Read) (w : World)
    (unread forwarded kept : StreamResult × World)
    → unread.0.copy_err ≡ true
    → (bad ≡ false → WholeReply resp rs w forwarded)
    → kept.0.first_error ≢ none
    → (if bad
        then unread
        else if empty
        then forwarded
        else if kept_back
        then kept
        else forwarded).0.first_error
      ≡ none
    → WholeReply resp rs w
        (if bad then unread else if empty then forwarded else if kept_back then kept else forwarded)
first-Whole true e k resp rs w u f kept ue reply ke n h = cc
first-Whole false true k resp rs w u f kept ue reply ke n h = reply refl h
first-Whole false false true resp rs w u f kept ue reply ke n h = elim (ke n) [ ]
first-Whole false false false resp rs w u f kept ue reply ke n h = reply refl h

Option_apart {ℓ} : {A : Type ℓ} {a : A} → some a ≢ none
Option_apart e = cc

forward_first-WholeReply :
    (env : Env) (protocol : Protocol) (resp : Response) (started : Time) (r : Read) (rs : List Read)
    (w : World)
    → Ends rs
    → (forward_first env protocol resp started r rs w).0.first_error ≡ none
    → WholeReply resp (r ∷ rs) w (forward_first env protocol resp started r rs w)
unfolding forward_first
forward_first-WholeReply env protocol resp started r rs w ends =
    let d = event_data r.event in
    let c = classify_data env resp d w in
    first-Whole (is_failed_read r.failure) (is_empty d) (is_key_failure c.kind) resp (r ∷ rs) w
      (record (no_error no_usage) { copy_err = true }, w)
      (forward_from env protocol resp started r rs w) (refused c d, w) refl
      (λ ok.
        forward_from-WholeReply env protocol resp started r rs w (failed-too_large r.failure ok)
          ends)
      (λ e. Option_apart e)

forward_reads-WholeReply :
    (env : Env) (protocol : Protocol) (resp : Response) (started : Time) (rs : List Read)
    (w : World)
    → IsComplete rs
    → (forward_reads env protocol resp started rs w).0.first_error ≡ none
    → WholeReply resp rs w (forward_reads env protocol resp started rs w)
unfolding forward_reads
forward_reads-WholeReply env protocol resp started [] w c = elim c [ ]
forward_reads-WholeReply env protocol resp started (r ∷ rs) w c =
    forward_first-WholeReply env protocol resp started r rs w (Ends-of_IsComplete (r ∷ rs) c).1

-- A stream for which `forwardStream` reports neither a failure of the key nor a failed copy: the
-- client has been sent the response's status line with its headers, and then exactly the bytes of
-- the body, whatever the chunks in which they were read and whatever else happened on the way.
pub forward_stream-Relays :
    (env : Env) (protocol : Protocol) (resp : Response) (started : Time) (w : World)
    → (forward_stream env protocol resp started w).0.first_error ≡ none
    → (forward_stream env protocol resp started w).0.copy_err ≡ false
    → Relays resp resp.body.content w (forward_stream env protocol resp started w).1
unfolding forward_stream
forward_stream-Relays env protocol resp started w n h =
    let complete =
      read_events-IsComplete fuel event_limit resp.body.is_broken content (omega arith) in
    let (relays, small) = forward_reads-WholeReply env protocol resp started _ w complete n h in
    subst (λ b. Relays resp b w (forward_stream env protocol resp started w).1)
      (all_events-read_events fuel event_limit resp.body.is_broken content (omega arith) small)
      relays
  where
    content : Text
    content = resp.body.content

    fuel : ℕ
    fuel = suc (length content)
