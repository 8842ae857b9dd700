-- ===== src/Proxy/Failover/Limits.antt =====
-- The limit of `HandleInference` of internal/proxy/service.go for the body of a request.
use opencode_proxy.Base.{
  ℕ, zero, suc, ◌<◌, ◌≤◌, ◌-◌, ◌^◌, ◌+◌, ◌≡◌, ◌⊎◌, inl, inr, refl, true, false, [], ◌∷◌, length,
  take, arith, Bool-cases,
}
use opencode_proxy.Text.{Text}
use opencode_proxy.Store.Types.{Protocol}
use opencode_proxy.Proxy.World.{Env, World, Incoming}
use opencode_proxy.Proxy.Request.{
  Body, within, failing, read_all_limited, read_limited, limit_message,
}
use opencode_proxy.Proxy.Inference.{handle_inference}
use opencode_proxy.Proxy.Failover.Answers.{Replies}
use opencode_proxy.Proxy.Failover.Requests.{body_read, handle_inference-Replies}

length-take : (n : ℕ) (s : Text) → n ≤ length s → length (take n s) ≡ n
length-take zero s h = refl
length-take (suc n) [] h = ground arith
length-take (suc n) (c ∷ s) h = ground (arith, length-take n s (ground arith))

-- A body that is over the limit, or that breaks off.
abbrev pub IsRefusedBody : ℕ → Body → Type 0
IsRefusedBody max b = (max < length b.content) ⊎ (b.is_broken ≡ true)

over_limit :
    (broken_message : Text) (max : ℕ) (b : Body)
    → max < 2 ^ 63 - 1
    → max < length b.content
    → (message : Text) × (read_limited broken_message max b ≡ failing message)
unfolding read_limited read_all_limited
over_limit broken_message max b small h =
    (limit_message max, ground (arith, length-take (max + 1) b.content (omega arith)))

broken_off :
    (broken_message : Text) (max : ℕ) (b : Body)
    → max < 2 ^ 63 - 1
    → length b.content ≤ max
    → b.is_broken ≡ true
    → read_limited broken_message max b ≡ failing broken_message
unfolding read_limited read_all_limited
broken_off broken_message max b small h e = ground arith

whole :
    (broken_message : Text) (max : ℕ) (b : Body)
    → max < 2 ^ 63 - 1
    → length b.content ≤ max
    → b.is_broken ≡ false
    → read_limited broken_message max b ≡ within b.content
unfolding read_limited read_all_limited
whole broken_message max b small h e = ground arith

-- A body that is longer than the limit, or that the connection breaks off, is answered with the status
-- 413 and only bytes behind it: the upstream is not called, and the database is as it was. Any other
-- body is read whole. The limit is below the largest int64.
pub handle_inference-body_read :
    (env : Env) (protocol : Protocol) (incoming : Incoming) (id : Text) (w : World)
    → env.max_request_bytes < 2 ^ 63 - 1
    → (IsRefusedBody env.max_request_bytes incoming.body
        × Replies 413 w (handle_inference env protocol incoming id w))
      ⊎ ((length incoming.body.content ≤ env.max_request_bytes)
          × (incoming.body.is_broken ≡ false)
          × (body_read env protocol incoming id w ≡ within incoming.body.content))
handle_inference-body_read env protocol incoming id w small =
    by_length (omega arith) (Bool-cases incoming.body.is_broken)
  where
    max : ℕ
    max = env.max_request_bytes

    by_length :
        length incoming.body.content ≤ max ⊎ (max < length incoming.body.content)
        → (incoming.body.is_broken ≡ true) ⊎ (incoming.body.is_broken ≡ false)
        → (IsRefusedBody max incoming.body
            × Replies 413 w (handle_inference env protocol incoming id w))
          ⊎ ((length incoming.body.content ≤ max)
              × (incoming.body.is_broken ≡ false)
              × (body_read env protocol incoming id w ≡ within incoming.body.content))
    by_length (inr h) b =
        let (message, failed) = over_limit env.broken_message max incoming.body small h in
        inl (inl h, handle_inference-Replies env protocol incoming id w message failed)
    by_length (inl h) (inl e) = inl (
      inr e,
      handle_inference-Replies env protocol incoming id w env.broken_message
          (broken_off env.broken_message max incoming.body small h e),
    )
    by_length (inl h) (inr e) = inr (h, e, whole env.broken_message max incoming.body small h e)
