-- ===== src/Proxy/Failover/Calls.antt =====
-- The calls of the upstream among what a request does: with some of the keys, each at most once and
-- in their order; and behind them the answer.
use opencode_proxy.Base.{
  ℕ, ◌≡◌, ◌∙◌, sym, ap, ◌⊎◌, subst, inl, inr, List, [], ◌∷◌, ◌++◌, All, append_assoc, append-nil,
}
use opencode_proxy.Store.Types.{Key}
use opencode_proxy.Store.Steps.{Reach, Reach-trans}
use opencode_proxy.Proxy.Header.{Header}
use opencode_proxy.Proxy.World.{World, Event, called, responded, UpstreamRequest}
use opencode_proxy.Proxy.Failover.Answers.{IsSent, Quiet, Answers}

-- An answer; or none, for the reason `U`: then net/http sends an empty response with status 200.
abbrev pub Closes : Type 0 → World → World → Type 0
Closes U w v = (U × Quiet w v) ⊎ Answers w v

-- `Calls P keys es`: the events are calls with keys of the list, in its order and each key at most
-- once, and `P` holds of each key and its call.
pub data Calls (P : Key → UpstreamRequest → Type 0) : List Key → List Event → Type 0 where
  none_left : Calls P [] []
  passed_over :
      {key : Key} {keys : List Key} {es : List Event} → Calls P keys es → Calls P (key ∷ keys) es
  placed :
      {key : Key} {keys : List Key} {es : List Event} (req : UpstreamRequest)
      → P key req
      → Calls P keys es
      → Calls P (key ∷ keys) (called key.id req ∷ es)

pub Calls-none : (P : Key → UpstreamRequest → Type 0) (keys : List Key) → Calls P keys []
Calls-none P [] = none_left
Calls-none P (key ∷ keys) = passed_over (Calls-none P keys)

pub Calls-map :
    {P Q : Key → UpstreamRequest → Type 0} {keys : List Key} {es : List Event}
    → ((key : Key) (req : UpstreamRequest) → P key req → Q key req)
    → Calls P keys es
    → Calls Q keys es
Calls-map f none_left = none_left
Calls-map f (passed_over c) = passed_over (Calls-map f c)
Calls-map f (placed {key = k} req p c) = placed req (f k req p) (Calls-map f c)

-- What a client sees behind the calls: one status line and then bytes; or nothing, for the reason `U`.
pub data IsAnswer (U : Type 0) : List Event → Type 0 where
  silent : U → IsAnswer U []
  answer :
      (status : ℕ) (header : Header) (out : List Event)
      → All IsSent out
      → IsAnswer U (responded status header ∷ out)

-- From one world to another: calls with keys of the list, then the answer.
pub record Serves (P : Key → UpstreamRequest → Type 0) (U : Type 0) (keys : List Key) (w v : World)
    : Type 0 where
  pub reach : Reach w.db v.db
  pub calls : List Event
  pub reply : List Event
  pub extends : v.log ≡ w.log ++ (calls ++ reply)
  pub in_order : Calls P keys calls
  pub is_answer : IsAnswer U reply

module _ {P : Key → UpstreamRequest → Type 0} {U : Type 0} where
  pub Serves-of_Closes : {w v : World} (keys : List Key) → Closes U w v → Serves P U keys w v
  Serves-of_Closes {w} keys (inl (u, q)) = record {
    reach = q.reach;
    calls = [];
    reply = [];
    extends = q.same ∙ sym (append-nil w.log);
    in_order = Calls-none P keys;
    is_answer = silent u;
  }
  Serves-of_Closes keys (inr a) = record {
    reach = a.reach;
    calls = [];
    reply = responded a.status a.header ∷ a.out;
    extends = a.extends;
    in_order = Calls-none P keys;
    is_answer = answer a.status a.header a.out a.bytes;
  }

  pub Serves-after :
      {u v w : World} {keys : List Key} → Quiet u v → Serves P U keys v w → Serves P U keys u w
  Serves-after q s = record {
    reach = Reach-trans q.reach s.reach;
    calls = s.calls;
    reply = s.reply;
    extends = s.extends ∙ ap (λ l. l ++ (s.calls ++ s.reply)) q.same;
    in_order = s.in_order;
    is_answer = s.is_answer;
  }

  pub Serves-passed :
      {u w : World} {key : Key} {keys : List Key}
      → Serves P U keys u w
      → Serves P U (key ∷ keys) u w
  Serves-passed s = record {
    reach = s.reach;
    calls = s.calls;
    reply = s.reply;
    extends = s.extends;
    in_order = passed_over s.in_order;
    is_answer = s.is_answer;
  }

  -- A call with the first key, and then what the others do.
  pub Serves-placed :
      {u v w : World} {key : Key} {keys : List Key} (req : UpstreamRequest)
      → P key req
      → v.db ≡ u.db
      → v.log ≡ u.log ++ called key.id req ∷ []
      → Serves P U keys v w
      → Serves P U (key ∷ keys) u w
  Serves-placed {u} {v} {w} {key} req p same log s = record {
    reach = subst (λ db. Reach db w.db) same s.reach;
    calls = called key.id req ∷ s.calls;
    reply = s.reply;
    extends =
        s.extends
        ∙ (ap (λ l. l ++ (s.calls ++ s.reply)) log
            ∙ append_assoc u.log (called key.id req ∷ []) (s.calls ++ s.reply));
    in_order = placed req p s.in_order;
    is_answer = s.is_answer;
  }
