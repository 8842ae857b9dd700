-- ===== src/Proxy/Usage/Reported.antt =====
-- The usage that internal/proxy/usage.go keeps of the events of a stream of Anthropic.
use opencode_proxy.Base.{
  ◌+◌, ◌≡◌, Bool, ◌||◌, ◌&&◌, List, [], ◌∷◌, Option, none, some, is_some, if◌then◌else◌,
}
use opencode_proxy.Base.Int.{ℤ, pos}
use opencode_proxy.Store.Types.{Usage}
use opencode_proxy.Proxy.Usage.{observe_anthropic}
use opencode_proxy.Proxy.Usage.Accounting.{IsCount, amount}

-- The four numbers of an event.
pub record Report : Type 0 where
  pub uncached : Option ℤ
  pub read : Option ℤ
  pub write : Option ℤ
  pub output : Option ℤ

-- The events of a stream, one after another.
unfoldable pub observe_all : List Report → Usage → Usage
observe_all [] a = a
observe_all (e ∷ es) a = observe_all es (observe_anthropic e.uncached e.read e.write e.output a)

-- The value of the last event that reports one.
unfoldable pub last_reported : (Report → Option ℤ) → List Report → Option ℤ
last_reported f [] = none
last_reported f (e ∷ es) = elim (last_reported f es) [ none ↦ f e | some n ↦ some n ]

abbrev pub HasCounts : Report → Type 0
HasCounts e = IsCount e.uncached × IsCount e.read × IsCount e.write

-- Some part of the input is known.
abbrev pub knows_input : Usage → Bool
knows_input a = is_some a.input_uncached || is_some a.cache_read || is_some a.cache_write

-- The total input is the sum of its known parts, where one is known.
abbrev pub TotalIs : Usage → Type 0
TotalIs a = a.total_input ≡ (
    if knows_input a
    then some (pos (amount a.input_uncached + amount a.cache_read + amount a.cache_write))
    else none)

record Counted (a : Usage) : Type 0 where
  of_uncached : IsCount a.input_uncached
  of_read : IsCount a.cache_read
  of_write : IsCount a.cache_write
  totalled : TotalIs a

-- Whether an event has the input and the output alike.
abbrev pub is_whole : Report → Bool
is_whole e = is_some e.uncached && is_some e.output
