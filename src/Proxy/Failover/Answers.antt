-- ===== src/Proxy/Failover/Answers.antt =====
-- How the functions of the handlers extend the log and move the database: quietly (nothing goes out),
-- by bytes to the client, or by an answer, which is one status line and then bytes.
use opencode_proxy.Base.{
  ℕ, ◌≡◌, refl, sym, ap, ◌∙◌, inl, inr, List, [], ◌∷◌, ◌++◌, All, All-append, append_assoc,
  append-nil, Bool-cases,
}
use opencode_proxy.Text.{Text, codes, newline}
use opencode_proxy.Store.Steps.{Reach, here, Reach-trans}
use opencode_proxy.Proxy.Json.{Json}
use opencode_proxy.Proxy.Header.{Header}
use opencode_proxy.Proxy.World.{
  Env, World, Event, called, responded, sent, write, write_header, set_header, write_json,
}

abbrev pub IsSent : Event → Type 0
IsSent (called k r) = ⊥
IsSent (responded s h) = ⊥
IsSent (sent b) = Unit

abbrev pub IsCall : Event → Type 0
IsCall (called k r) = Unit
IsCall (responded s h) = ⊥
IsCall (sent b) = ⊥

-- Nothing crosses the network.
pub record Quiet (w v : World) : Type 0 where
  pub reach : Reach w.db v.db
  pub same : v.log ≡ w.log

-- Only bytes go to the client.
pub record Sends (w v : World) : Type 0 where
  pub reach : Reach w.db v.db
  pub out : List Event
  pub extends : v.log ≡ w.log ++ out
  pub bytes : All IsSent out

-- One status line goes to the client, then only bytes.
pub record Answers (w v : World) : Type 0 where
  pub reach : Reach w.db v.db
  pub status : ℕ
  pub header : Header
  pub out : List Event
  pub extends : v.log ≡ w.log ++ responded status header ∷ out
  pub bytes : All IsSent out

pub Quiet-refl : (w : World) → Quiet w w
Quiet-refl w = record { reach = here; same = refl }

pub Quiet-trans : {u v w : World} → Quiet u v → Quiet v w → Quiet u w
Quiet-trans a b = record { reach = Reach-trans a.reach b.reach; same = b.same ∙ a.same }

pub Sends-of_Quiet : {w v : World} → Quiet w v → Sends w v
Sends-of_Quiet {w} {v} q = record {
  reach = q.reach;
  out = [];
  extends = q.same ∙ sym (append-nil w.log);
  bytes = tt;
}

pub Sends-trans : {u v w : World} → Sends u v → Sends v w → Sends u w
Sends-trans {u} a b = record {
  reach = Reach-trans a.reach b.reach;
  out = a.out ++ b.out;
  extends = b.extends ∙ (ap (λ l. l ++ b.out) a.extends ∙ append_assoc u.log a.out b.out);
  bytes = All-append IsSent a.out b.out a.bytes b.bytes;
}

pub Answers-after : {u v w : World} → Quiet u v → Answers v w → Answers u w
Answers-after q a = record {
  reach = Reach-trans q.reach a.reach;
  status = a.status;
  header = a.header;
  out = a.out;
  extends = a.extends ∙ ap (λ l. l ++ responded a.status a.header ∷ a.out) q.same;
  bytes = a.bytes;
}

pub Answers-then : {u v w : World} → Answers u v → Sends v w → Answers u w
Answers-then {u} a b = record {
  reach = Reach-trans a.reach b.reach;
  status = a.status;
  header = a.header;
  out = a.out ++ b.out;
  extends =
      b.extends
      ∙ (ap (λ l. l ++ b.out) a.extends
          ∙ append_assoc u.log (responded a.status a.header ∷ a.out) b.out);
  bytes = All-append IsSent a.out b.out a.bytes b.bytes;
}

pub write_header-Answers : (status : ℕ) (w : World) → Answers w (write_header status w)
unfolding write_header
write_header-Answers status w = record {
  reach = here;
  status = status;
  header = w.header;
  out = [];
  extends = refl;
  bytes = tt;
}

pub write-Sends : (env : Env) (b : Text) (w : World) → Sends w (write env b w).0
unfolding write
write-Sends env b w = elim (Bool-cases (env.accepts w.writes)) [
  | inl e ↦ rw e (record { reach = here; out = sent b ∷ []; extends = refl; bytes = (tt, tt) })
  | inr e ↦ rw e (record { reach = here; out = []; extends = sym (append-nil w.log); bytes = tt })
]

pub set_header-Quiet : (name value : Text) (w : World) → Quiet w (set_header name value w)
unfolding set_header
set_header-Quiet name value w = record { reach = here; same = refl }

pub write_json-Answers :
    (env : Env) (status : ℕ) (v : Json) (w : World) → Answers w (write_json env status v w)
unfolding write_json
write_json-Answers env status v w =
    Answers-after (set_header-Quiet _ _ w)
      (Answers-then (write_header-Answers status _) (write-Sends env _ _))

write-db : (env : Env) (b : Text) (w : World) → (write env b w).0.db ≡ w.db
unfolding write
write-db env b w = elim (Bool-cases (env.accepts w.writes)) [
  | inl e ↦ rw e refl
  | inr e ↦ rw e refl
]

-- A status line, only bytes behind it, and nothing else: the database stays.
abbrev pub Replies : ℕ → World → World → Type 0
Replies status w v =
    (h : Header) × (out : List Event) × (v.log ≡ w.log ++ responded status h ∷ out)
    × All IsSent out
    × (v.db ≡ w.db)

pub set_header-Replies :
    (name value : Text) (status : ℕ) (w v : World)
    → Replies status (set_header name value w) v
    → Replies status w v
unfolding set_header
set_header-Replies name value status w v r = r

-- A status line and one write, from a world with the same log and database.
pub written-Replies :
    (env : Env) (b : Text) (status : ℕ) (u w : World)
    → w.log ≡ u.log
    → w.db ≡ u.db
    → Replies status u (write env b (write_header status w)).0
unfolding write_header
written-Replies env b status u w log same =
    let head : World = write_header status w in
    let s = write-Sends env b head in
    (
      w.header,
      s.out,
      s.extends
          ∙ (append_assoc w.log (responded status w.header ∷ []) s.out
              ∙ ap (λ l. l ++ responded status w.header ∷ s.out) log),
      s.bytes,
      write-db env b head ∙ same,
    )

pub write_json-Replies :
    (env : Env) (status : ℕ) (v : Json) (w : World) → Replies status w (write_json env status v w)
unfolding write_json set_header
write_json-Replies env status v w =
    written-Replies env (env.codec.marshal v ++ newline ∷ []) status w
      (set_header (codes "Content-Type") (codes "application/json") w) refl refl
