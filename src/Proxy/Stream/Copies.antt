-- ===== src/Proxy/Stream/Copies.antt =====
-- Exact copies of bytes to the client, by the writes of internal/proxy/service.go.
use opencode_proxy.Base.{
  ◌≡◌, refl, ◌∙◌, ap, sym, inl, inr, true, List, [], ◌∷◌, ◌++◌, append_assoc, append-nil,
  Bool-cases, if◌then◌else◌,
}
use opencode_proxy.Text.{Text}
use opencode_proxy.Proxy.World.{Env, World, Event, called, responded, sent, write}
use opencode_proxy.Proxy.Stream.{is_empty}

-- The bytes of the events that go to the client.
abbrev pub sent_bytes : List Event → Text
sent_bytes [] = []
sent_bytes (sent b ∷ es) = b ++ sent_bytes es
sent_bytes (called k r ∷ es) = sent_bytes es
sent_bytes (responded s h ∷ es) = sent_bytes es

sent_bytes-append : (a b : List Event) → sent_bytes (a ++ b) ≡ sent_bytes a ++ sent_bytes b
sent_bytes-append [] b = refl
sent_bytes-append (sent x ∷ a) b =
    ap (λ l. x ++ l) (sent_bytes-append a b) ∙ sym (append_assoc x (sent_bytes a) (sent_bytes b))
sent_bytes-append (called k r ∷ a) b = sent_bytes-append a b
sent_bytes-append (responded s h ∷ a) b = sent_bytes-append a b

-- Exactly these bytes are sent, and nothing else happens.
pub record Copies (b : Text) (w v : World) : Type 0 where
  pub out : List Event
  pub extends : v.log ≡ w.log ++ out
  pub content : sent_bytes out ≡ b

pub Copies-trans : {a b : Text} {u v w : World} → Copies a u v → Copies b v w → Copies (a ++ b) u w
Copies-trans {a} {b} {u} x y = record {
  out = x.out ++ y.out;
  extends = y.extends ∙ (ap (λ l. l ++ y.out) x.extends ∙ append_assoc u.log x.out y.out);
  content =
      sent_bytes-append x.out y.out
      ∙ (ap (λ l. l ++ sent_bytes y.out) x.content ∙ ap (λ l. a ++ l) y.content);
}

pub write-Copies :
    (env : Env) (b : Text) (w : World) → (write env b w).1 ≡ true → Copies b w (write env b w).0
unfolding write
write-Copies env b w = elim (Bool-cases (env.accepts w.writes)) [
  | inl e ↦ rw e (λ h. record { out = sent b ∷ []; extends = refl; content = append-nil b })
  | inr e ↦ rw e (λ h. cc)
]

-- An empty event is not written.
pub written-Copies :
    (env : Env) (e : Text) (w : World)
    → (if is_empty e then (w, true) else write env e w).1 ≡ true
    → Copies e w (if is_empty e then (w, true) else write env e w).0
written-Copies env [] w h = record { out = []; extends = sym (append-nil w.log); content = refl }
written-Copies env (c ∷ e) w h = write-Copies env (c ∷ e) w h
