-- ===== src/Scheduler/Selecting.antt =====
-- Which keys a run of internal/scheduler/scheduler.go probes.
use opencode_proxy.Base.{
  ℕ, ◌≡◌, ◌⊎◌, refl, sym, subst, arith, or_else, Option, none, some, inl, inr, Bool, true, false,
  List, [], ◌∷◌, Member, All, if◌then◌else◌,
}
use opencode_proxy.Base.Int.{sub_ℕ, ◌≤ℤ◌}
use opencode_proxy.Time.{Time}
use opencode_proxy.Store.Types.{Key, Db, Settings, QuotaState, is_half_open}
use opencode_proxy.Store.Keys.{mark_half_open_due}
use opencode_proxy.Store.Routing.{list_keys}
use opencode_proxy.Store.Telemetry.{get_settings}
use opencode_proxy.Store.Steps.{here, next, half_open, purge}
use opencode_proxy.Proxy.World.{Env, World, Event, called, responded, sent}
use opencode_proxy.Proxy.Probe.{test_key}
use opencode_proxy.Proxy.Probe.Calls.{
  Probes, IsCallOf, Probes-of_Quiet, Probes-trans, test_key-Probes,
}
use opencode_proxy.Proxy.Failover.Answers.{Quiet-refl}
use opencode_proxy.Proxy.Failover.Storing.{with_db-Quiet}
use opencode_proxy.Scheduler.{checked_lately, is_probed, probe_keys, run}
use opencode_proxy.Proxy.Reset.{seconds_duration}

-- The probe of the key is switched on: by the key itself, or for all keys where the key says nothing.
abbrev pub IsSwitchedOn : Settings → Key → Type 0
IsSwitchedOn settings k =
    (k.auto_probe_override ≡ some true)
    ⊎ ((k.auto_probe_override ≡ none) × (settings.auto_probe_enabled ≡ true))

-- The last check, if there was one, is no less than the interval ago, by the wrapped duration.
abbrev pub IsOverdue : Settings → Time → Option Time → Type 0
IsOverdue settings now none = Unit {0}
IsOverdue settings now (some t) = seconds_duration settings.probe_interval_sec ≤ℤ sub_ℕ now t

-- The id of a half-open and enabled key of the list whose probe is switched on and due.
abbrev pub IsProbed : Settings → Time → List Key → ℕ → Type 0
IsProbed settings now keys id =
    (key : Key) × Member key keys
    × (key.quota_state ≡ QuotaState.half_open)
    × (key.admin_enabled ≡ true)
    × IsSwitchedOn settings key
    × IsOverdue settings now key.last_checked_at
    × (key.id ≡ id)

half_open_of : (q : QuotaState) → is_half_open q ≡ true → q ≡ QuotaState.half_open
half_open_of q h = ground arith

IsSwitchedOn-of :
    (o : Option Bool) (b : Bool) → or_else o b ≡ true → (o ≡ some true) ⊎ ((o ≡ none) × (b ≡ true))
IsSwitchedOn-of none b h = inr (refl, h)
IsSwitchedOn-of (some true) b h = inl refl
IsSwitchedOn-of (some false) b h = absurd (ground arith)

IsOverdue-of :
    (settings : Settings) (now : Time) (last : Option Time)
    → checked_lately settings now last ≡ false
    → IsOverdue settings now last
IsOverdue-of settings now none h = tt
IsOverdue-of settings now (some t) h = ground arith

IsProbed-of :
    (settings : Settings) (now : Time) (key : Key) (keys : List Key)
    → is_probed settings now key ≡ true
    → IsProbed settings now (key ∷ keys) key.id
unfolding is_probed
IsProbed-of settings now key keys e = (
  key,
  inl refl,
  half_open_of key.quota_state (ground arith),
  ground arith,
  IsSwitchedOn-of key.auto_probe_override settings.auto_probe_enabled (ground arith),
  IsOverdue-of settings now key.last_checked_at (ground arith),
  refl,
)

IsCallOf-map :
    {P Q : ℕ → Type 0}
    → ((id : ℕ) → P id → Q id)
    → (es : List Event) → All (IsCallOf P) es
    → All (IsCallOf Q) es
IsCallOf-map f [] h = tt
IsCallOf-map f (called id req ∷ es) h = (f id h.0, IsCallOf-map f es h.1)
IsCallOf-map f (responded status g ∷ es) h = absurd h.0
IsCallOf-map f (sent b ∷ es) h = absurd h.0

Probes-map :
    {P Q : ℕ → Type 0} {w v : World} → ((id : ℕ) → P id → Q id) → Probes P w v → Probes Q w v
Probes-map f p = record {
  reach = p.reach;
  calls = p.calls;
  extends = p.extends;
  of_key = IsCallOf-map f p.calls p.of_key;
}

IsProbed-if :
    (env : Env) (settings : Settings) (now : Time) (key : Key) (keys : List Key) (b : Bool)
    (w : World)
    → is_probed settings now key ≡ b
    → Probes (IsProbed settings now (key ∷ keys)) w (if b then (test_key env key true w).1 else w)
IsProbed-if env settings now key keys false w e = Probes-of_Quiet (Quiet-refl w)
IsProbed-if env settings now key keys true w e =
    Probes-map
      (λ id same.
        subst (IsProbed settings now (key ∷ keys)) (sym same) (IsProbed-of settings now key keys e))
      (test_key-Probes env key true w)

probe_keys-Probes :
    (env : Env) (settings : Settings) (now : Time) (keys : List Key) (w : World)
    → Probes (IsProbed settings now keys) w (probe_keys env settings now keys w)
unfolding probe_keys
probe_keys-Probes env settings now [] w = Probes-of_Quiet (Quiet-refl w)
probe_keys-Probes env settings now (key ∷ keys) w =
    Probes-trans (IsProbed-if env settings now key keys (is_probed settings now key) w refl) (
      Probes-map (λ id h. (h.0, inr h.1, h.2, h.3, h.4, h.5, h.6))
        (probe_keys-Probes env settings now keys _))

-- The database in which a run lists the keys.
abbrev pub listing_db : World → Db
listing_db w = mark_half_open_due w.clock w.db

-- A run calls the upstream only with keys that are listed, once the keys that are due are half open,
-- as half open and enabled, whose probe is switched on, by the key itself or else by the settings,
-- and that were never checked or not within the interval; it sends nothing to a client, and moves the
-- database only by steps of the store.
pub run-Probes :
    (env : Env) (event_retention : ℕ) (w : World)
    → Probes
        (IsProbed (get_settings (listing_db w)) w.clock (list_keys (listing_db w)))
        w
        (run env event_retention w)
unfolding run
run-Probes env event_retention w =
    Probes-trans (Probes-of_Quiet (with_db-Quiet w _ (next here (half_open w.clock)))) (
      Probes-trans (probe_keys-Probes env _ _ _ _)
        (Probes-of_Quiet (with_db-Quiet _ _ (next here (purge _)))))
