-- ===== src/Proxy/Failover/Decisions.antt =====
-- When the loop of `HandleInference` of internal/proxy/service.go goes on to the next key.
use opencode_proxy.Base.{
  ℕ, ◌≡◌, refl, sym, subst, inl, inr, ◌⊎◌, Bool, true, false, List, [], ◌∷◌, All, Option, none,
  some, arith, if◌then◌else◌,
}
use opencode_proxy.Text.{Text}
use opencode_proxy.Time.{Time}
use opencode_proxy.Store.Types.{Key, Db, ErrorKind, AttemptRecord, after}
use opencode_proxy.Store.Rows.{has_id}
use opencode_proxy.Store.Routing.{is_eligible}
use opencode_proxy.Store.Telemetry.{add_attempt}
use opencode_proxy.Proxy.Classifier.{Classification}
use opencode_proxy.Proxy.World.{Env, World, Response}
use opencode_proxy.Proxy.Stream.{StreamResult, is_key_failure}
use opencode_proxy.Proxy.Inference.{
  Call, Loop, Verdict, go_on, stop, try_key, try_reply, try_stream, try_body, stream_failover,
  body_failover, stream_verdict, body_verdict, key_verdict, fail_key, log_attempt, is_event_stream,
}
use opencode_proxy.Proxy.Probe.Rows.{RowHolds, FailureHolds, fail_key-RowHolds}

abbrev pub IsRefused : Key → Type 0
IsRefused k = is_eligible k ≡ false

IsRefused-of_failure :
    (kind : ErrorKind) (k : Key) → is_key_failure kind ≡ true → FailureHolds kind k → IsRefused k
IsRefused-of_failure ErrorKind.quota k h f = ground (arith, f.0)
IsRefused-of_failure ErrorKind.auth k h f = ground (arith, f.0)
IsRefused-of_failure ErrorKind.ok k h f = cc
IsRefused-of_failure ErrorKind.rate_limit k h f = cc
IsRefused-of_failure ErrorKind.upstream k h f = cc
IsRefused-of_failure ErrorKind.request k h f = cc
IsRefused-of_failure ErrorKind.network k h f = cc

rows-IsRefused :
    (kind : ErrorKind) (id : ℕ) (ks : List Key)
    → is_key_failure kind ≡ true
    → All (λ k. has_id id k ≡ true → FailureHolds kind k) ks
    → All (λ k. has_id id k ≡ true → IsRefused k) ks
rows-IsRefused kind id [] h a = tt
rows-IsRefused kind id (k ∷ ks) h a =
    ((λ e. IsRefused-of_failure kind k h (a.0 e)), rows-IsRefused kind id ks h a.1)

attempt-keys : (a : AttemptRecord) (db : Db) → (after db (add_attempt a db)).keys ≡ db.keys
unfolding add_attempt
attempt-keys a db = ground arith

logged-RowHolds :
    (key : Key) (c : Classification) (a : AttemptRecord) (w : World)
    → is_key_failure c.kind ≡ true
    → RowHolds IsRefused key.id (log_attempt a (fail_key key c w)).db
logged-RowHolds key c a w h =
    subst (λ ks. All (λ k. has_id key.id k ≡ true → IsRefused k) ks)
      (sym (attempt-keys a (fail_key key c w).db))
      (rows-IsRefused c.kind key.id _ h (fail_key-RowHolds key c w))

-- A verdict by which the loop goes on leaves the key out of the eligible ones.
abbrev GoesOn : ℕ → Verdict → Type 0
GoesOn id (go_on l) = RowHolds IsRefused id l.world.db
GoesOn id (stop w) = Unit {0}

GoesOn-if :
    (b : Bool) (id : ℕ) (l : Loop) (w : World)
    → (b ≡ true → RowHolds IsRefused id l.world.db)
    → GoesOn id (if b then go_on l else stop w)
GoesOn-if true id l w h = h refl
GoesOn-if false id l w h = tt

module _ (env : Env) (call : Call) (key : Key) (n : ℕ) (t : Time) where
  stream-GoesOn :
      (resp : Response) (result : StreamResult) (l : Loop) (w : World) (f : Option Classification)
      → GoesOn key.id (stream_verdict call key n t resp result l w f)
  unfolding stream_failover
  stream-GoesOn resp result l w none = tt
  stream-GoesOn resp result l w (some c) =
      GoesOn-if (is_key_failure c.kind) key.id _ _ (λ h. logged-RowHolds key c _ w h)

  body-GoesOn :
      (resp : Response) (l : Loop) (w : World) (b : Option Text)
      → GoesOn key.id (body_verdict env call key n t resp l w b)
  unfolding body_failover
  body-GoesOn resp l w none = tt
  body-GoesOn resp l w (some body) = GoesOn-if _ key.id _ _ (λ h. logged-RowHolds key _ _ w h)

  either-GoesOn :
      (b : Bool) (v u : Verdict)
      → GoesOn key.id v
      → GoesOn key.id u
      → GoesOn key.id (if b then v else u)
  either-GoesOn true v u x y = x
  either-GoesOn false v u x y = y

  reply-GoesOn :
      (reply : Option Response) (l : Loop) (w : World)
      → GoesOn key.id (try_reply env call key n t reply l w)
  unfolding try_reply try_stream try_body
  reply-GoesOn none l w = tt
  reply-GoesOn (some resp) l w =
      either-GoesOn (is_event_stream call.meta resp) _ _ (stream-GoesOn resp _ l _ _)
        (body-GoesOn resp l _ _)

-- A round goes on to the next key only if its key cannot be decrypted, and then nothing has happened,
-- or if the key has failed, and then no row with its id is eligible any more.
pub try_key-GoesOn :
    (env : Env) (call : Call) (key : Key) (n : ℕ) (l next : Loop)
    → try_key env call key n l ≡ go_on next
    → ((env.decrypt key.encrypted_key ≡ none) × (next ≡ l))
      ⊎ RowHolds IsRefused key.id next.world.db
unfolding try_key
try_key-GoesOn env call key n l next e = go (env.decrypt key.encrypted_key) refl e
  where
    go :
        (s : Option Text)
        → env.decrypt key.encrypted_key ≡ s
        → key_verdict env call key n l s ≡ go_on next
        → ((env.decrypt key.encrypted_key ≡ none) × (next ≡ l))
          ⊎ RowHolds IsRefused key.id next.world.db
    go none d e = inl (d, cc)
    go (some secret) d e = inr (subst (GoesOn key.id) e (reply-GoesOn env call key n _ _ l _))
