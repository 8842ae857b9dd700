-- ===== src/Proxy/Usage.antt =====
-- internal/proxy/usage.go: the usage that a response reports. A `(value, ok)` pair is an `Option`;
-- sums and differences are those of an int64.
pub mod Accounting
pub mod Reported
use opencode_proxy.Base.{◌+◌, Bool, ◌&&◌, ◌||◌, Option, none, some, is_some, or_else, if◌then◌else◌}
use opencode_proxy.Base.Int.{ℤ, pos, pos_part, neg_part, sub_ℕ, ltb_ℤ, wrap_int64}
use opencode_proxy.Text.{Text, codes}
use opencode_proxy.Store.Types.{Usage, UsageState, Protocol, openai, anthropic, partial, complete}
use opencode_proxy.Proxy.Json.{
  Json, Fields, Codec, null, boolean, num, real, str, arr, obj, member, as_object,
}

abbrev pub as_int : Option Json → Option ℤ
as_int none = none
as_int (some null) = none
as_int (some (boolean b)) = none
as_int (some (num n)) = some n
as_int (some (real s n)) = some n
as_int (some (str s)) = none
as_int (some (arr xs)) = none
as_int (some (obj fs)) = none

-- `intField`, `intFieldEither`, `nestedInt`.
unfoldable pub int_field : Text → Fields → Option ℤ
int_field key m = as_int (member key m)

unfoldable pub int_field_either : Text → Text → Fields → Option ℤ
unfolding int_field
int_field_either first second m = elim (int_field first m) [
  | none ↦ int_field second m
  | some v ↦ some v
]

abbrev pub nested_in : Text → Option Fields → Option ℤ
nested_in inner none = none
nested_in inner (some v) = int_field inner v

unfoldable pub nested_int : Text → Text → Fields → Option ℤ
unfolding int_field
nested_int outer inner m = nested_in inner (as_object (member outer m))

-- `a = ptr(v)` if there is a value, else `a` stays.
abbrev pub updated : Option ℤ → Option ℤ → Option ℤ
updated none old = old
updated (some v) old = some v

abbrev pub value : Option ℤ → ℤ
value v = or_else v (pos 0)

unfoldable pub add_int64 : ℤ → ℤ → ℤ
add_int64 a b = wrap_int64 (sub_ℕ (pos_part a + pos_part b) (neg_part a + neg_part b))

unfoldable pub sub_int64 : ℤ → ℤ → ℤ
sub_int64 a b = wrap_int64 (sub_ℕ (pos_part a + neg_part b) (neg_part a + pos_part b))

abbrev pub state_of : Bool → UsageState
state_of b = if b then complete else partial

-- The branch for the protocol of Anthropic, from the four fields.
unfoldable pub observe_anthropic : Option ℤ → Option ℤ → Option ℤ → Option ℤ → Usage → Usage
observe_anthropic uncached read write output a =
    let input_uncached = updated uncached a.input_uncached in
    let cache_read = updated read a.cache_read in
    let cache_write = updated write a.cache_write in
    record a {
      input_uncached = input_uncached;
      cache_read = cache_read;
      cache_write = cache_write;
      output_tokens = updated output a.output_tokens;
      total_input =
          if is_some uncached || is_some read || is_some write
          then some
              (add_int64 (add_int64 (value input_uncached) (value cache_read)) (value cache_write))
          else a.total_input;
      state = state_of (is_some uncached && is_some output);
    }

-- `uncached := input - cached`, and no less than 0.
abbrev pub uncached_of : Option ℤ → Option ℤ → Option ℤ → Option ℤ
uncached_of none cached old = old
uncached_of (some input) cached old =
    let uncached = sub_int64 input (value cached) in
    some (if ltb_ℤ uncached (pos 0) then pos 0 else uncached)

-- The other branch, from its five fields.
unfoldable pub observe_openai : Option ℤ → Option ℤ → Option ℤ → Option ℤ → Option ℤ → Usage → Usage
observe_openai input output cached reasoning total a = record a {
  total_input = updated input a.total_input;
  output_tokens = updated output a.output_tokens;
  cache_read = updated cached a.cache_read;
  input_uncached = uncached_of input cached a.input_uncached;
  reasoning_tokens = updated reasoning a.reasoning_tokens;
  total_tokens = updated total a.total_tokens;
  state = state_of (is_some input && is_some output);
}

-- The loop over the two names: the later one wins.
unfoldable pub cached_tokens : Fields → Option ℤ
unfolding nested_int
cached_tokens u =
    updated (nested_int (codes "input_tokens_details") (codes "cached_tokens") u)
      (nested_int (codes "prompt_tokens_details") (codes "cached_tokens") u)

unfoldable pub observe_fields : Protocol → Fields → Usage → Usage
unfolding observe_anthropic observe_openai int_field int_field_either nested_int cached_tokens
observe_fields anthropic u a =
    observe_anthropic (int_field (codes "input_tokens") u)
      (int_field (codes "cache_read_input_tokens") u)
      (int_field (codes "cache_creation_input_tokens") u) (int_field (codes "output_tokens") u) a
observe_fields openai u a =
    observe_openai (int_field_either (codes "prompt_tokens") (codes "input_tokens") u)
      (int_field_either (codes "completion_tokens") (codes "output_tokens") u) (cached_tokens u)
      (nested_int (codes "completion_tokens_details") (codes "reasoning_tokens") u)
      (int_field (codes "total_tokens") u) a

unfoldable pub observe_usage : Codec → Protocol → Fields → Usage → Usage
unfolding observe_fields
observe_usage codec protocol u a =
    observe_fields protocol u (record a { raw_json = codec.marshal (obj u) })

abbrev pub observe_object : Codec → Protocol → Option Fields → Usage → Usage
observe_object codec protocol none a = a
observe_object codec protocol (some u) a = observe_usage codec protocol u a

abbrev pub usage_of : Option Fields → Option Fields
usage_of none = none
usage_of (some m) = as_object (member (codes "usage") m)

unfoldable pub observe_root : Codec → Protocol → Option Fields → Usage → Usage
unfolding observe_usage member
observe_root codec protocol none a = a
observe_root codec protocol (some root) a =
    observe_object codec protocol (usage_of (as_object (member (codes "message") root)))
      (observe_object codec protocol (usage_of (some root)) a)

-- `ObserveJSON`. Unmarshalling into a map fails on any value that is no object, but for `null`, which
-- leaves the map empty: in neither case is there anything to observe.
unfoldable pub observe_json : Codec → Protocol → Text → Usage → Usage
unfolding observe_root
observe_json codec protocol body a =
    observe_root codec protocol (as_object (codec.unmarshal body)) a
