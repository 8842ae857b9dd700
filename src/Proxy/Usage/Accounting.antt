-- ===== src/Proxy/Usage/Accounting.antt =====
-- What the accumulated usage means.
use opencode_proxy.Base.{
  ℕ, ◌+◌, ◌-◌, ◌^◌, ◌≤◌, ◌<◌, ◌≡◌, refl, true, ◌||◌, Option, none, some, arith, is_some,
}
use opencode_proxy.Base.Int.{ℤ, pos, negsuc}
use opencode_proxy.Store.Types.{Usage}
use opencode_proxy.Proxy.Usage.{
  observe_anthropic, observe_openai, value, updated, add_int64, sub_int64, uncached_of,
}

-- Counts of tokens up to 2^61 do not overflow.
abbrev pub IsCount : Option ℤ → Type 0
IsCount none = Unit {0}
IsCount (some (pos n)) = n < 2 ^ 61
IsCount (some (negsuc n)) = ⊥

abbrev pub amount : Option ℤ → ℕ
amount none = 0
amount (some (pos n)) = n
amount (some (negsuc n)) = 0

pub updated-IsCount : (v old : Option ℤ) → IsCount v → IsCount old → IsCount (updated v old)
updated-IsCount none old h k = k
updated-IsCount (some v) old h k = h

value-amount : (v : Option ℤ) → IsCount v → (value v ≡ pos (amount v)) × (amount v < 2 ^ 61)
value-amount none h = (refl, omega arith)
value-amount (some (pos n)) h = (refl, h)
value-amount (some (negsuc n)) h = absurd h

add_int64_small : (a b : ℕ) → a < 2 ^ 62 → b < 2 ^ 62 → add_int64 (pos a) (pos b) ≡ pos (a + b)
unfolding add_int64
add_int64_small a b h k = ground arith

-- After an Anthropic event that reports any part of the input, the total input is the sum of the
-- three accumulated parts, for counts of tokens below 2^61.
pub anthropic_total :
    (uncached read write output : Option ℤ) (a : Usage)
    → IsCount uncached
    → IsCount read
    → IsCount write
    → IsCount a.input_uncached
    → IsCount a.cache_read
    → IsCount a.cache_write
    → is_some uncached || is_some read || is_some write ≡ true
    → let b = observe_anthropic uncached read write output a in
      b.total_input
      ≡ some (pos (amount b.input_uncached + amount b.cache_read + amount b.cache_write))
unfolding observe_anthropic
anthropic_total uncached read write output a hu hr hw au ar aw h =
    let u = value-amount _ (updated-IsCount uncached a.input_uncached hu au) in
    let r = value-amount _ (updated-IsCount read a.cache_read hr ar) in
    let w = value-amount _ (updated-IsCount write a.cache_write hw aw) in
    rw
      (
        h,
        u.0,
        r.0,
        w.0,
        add_int64_small (amount (updated uncached a.input_uncached))
            (amount (updated read a.cache_read)) (omega arith) (omega arith),
        add_int64_small
            (amount (updated uncached a.input_uncached) + amount (updated read a.cache_read))
            (amount (updated write a.cache_write)) (omega arith) (omega arith),
      )
      refl

sub_int64_small :
    (i c : ℕ)
    → i < 2 ^ 61
    → c < 2 ^ 61
    → uncached_of (some (pos i)) (some (pos c)) none ≡ some (pos (i - c))
unfolding sub_int64
sub_int64_small i c h k = ground arith

-- An OpenAI event that reports an input of `i` tokens, `c` of them cached, leaves a split of the
-- input: what is read from the cache, and the rest, which is no less than 0.
pub openai_split :
    (i c : ℕ) (output reasoning total : Option ℤ) (a : Usage)
    → i < 2 ^ 61
    → c < 2 ^ 61
    → let b = observe_openai (some (pos i)) output (some (pos c)) reasoning total a in
      (b.total_input ≡ some (pos i))
      × (b.cache_read ≡ some (pos c))
      × (b.input_uncached ≡ some (pos (i - c)))
      × (c ≤ i → amount b.input_uncached + amount b.cache_read ≡ amount b.total_input)
unfolding observe_openai
openai_split i c output reasoning total a h k =
    (refl, refl, sub_int64_small i c h k, λ le. rw (sub_int64_small i c h k) (omega arith))
