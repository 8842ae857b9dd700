-- ===== src/Proxy/Request.antt =====
-- What `HandleInference` of internal/proxy/service.go does with the body of a request before it
-- forwards it: `readLimited`, `inspectRequest`, `ensureStreamUsage`.
use opencode_proxy.Base.{
  ℕ, Bool, true, false, Option, none, some, ◌+◌, ◌-◌, ◌^◌, ltb, leb, if◌then◌else◌, length, take,
  ◌++◌,
}
use opencode_proxy.Text.{format_decimal, Text, codes, text_eq}
use opencode_proxy.Proxy.Json.{
  Json, Fields, Codec, null, boolean, num, real, str, arr, obj, end, field, member, as_object,
}

-- A body as the connection delivers it, and whether the connection then fails.
pub record Body : Type 0 where
  pub content : Text
  pub is_broken : Bool

-- `io.ReadAll` behind `io.LimitReader(r, limit)`: `none` is an error of the connection, which is seen
-- only if the limit is not reached first.
unfoldable pub read_all_limited : ℕ → Body → Option Text
read_all_limited limit b =
    if ltb (length b.content) limit
    then if b.is_broken then none else some b.content
    else some (take limit b.content)

-- `fmt.Errorf("request body exceeds %d bytes", max)`.
abbrev pub limit_message : ℕ → Text
limit_message max = codes "request body exceeds " ++ (format_decimal max ++ codes " bytes")

-- What `readLimited` returns: the body, or the text of its error.
pub data Limited : Type 0 where
  within : Text → Limited
  failing : Text → Limited

-- `max+1` in an int64. Behind the largest int64 it is negative, and then `io.LimitReader` reads nothing.
abbrev pub read_limit : ℕ → ℕ
read_limit max = if leb (2 ^ 63 - 1) max then 0 else max + 1

-- A body of more than `max` bytes is refused; one that breaks off before fails with the text of the
-- connection's error.
unfoldable pub read_limited : Text → ℕ → Body → Limited
unfolding read_all_limited format_decimal
read_limited broken_message max b = elim (read_all_limited (read_limit max) b) [
  | none ↦ failing broken_message
  | some content ↦ if ltb max (length content) then failing (limit_message max) else within content
]

-- `requestMeta`, and the struct of `inspectRequest` with its lists counted. The decoding of the
-- struct is json.Unmarshal's, which leaves zero values where it fails.
pub record RequestMeta : Type 0 where
  pub model : Text
  pub stream : Bool
  pub message_count : ℕ
  pub tool_count : ℕ

-- `m[key] = v`.
unfoldable pub set_member : Text → Json → Fields → Fields
set_member key v end = field key v end
set_member key v (field k old rest) =
    let later = set_member key v rest in if text_eq k key then field k v rest else field k old later

abbrev pub is_true : Option Json → Bool
is_true none = false
is_true (some (boolean b)) = b
is_true (some null) = false
is_true (some (num n)) = false
is_true (some (real s n)) = false
is_true (some (str s)) = false
is_true (some (arr xs)) = false
is_true (some (obj fs)) = false

abbrev pub options_of : Option Fields → Fields
options_of none = end
options_of (some m) = m

abbrev pub with_usage : Option Json → Fields → Fields
with_usage none options = set_member (codes "include_usage") (boolean true) options
with_usage (some v) options = options

unfoldable pub ensure_object : Fields → Fields
unfolding set_member member
ensure_object v =
    let options = options_of (as_object (member (codes "stream_options") v)) in
    set_member (codes "stream_options")
      (obj (with_usage (member (codes "include_usage") options) options)) v

ensure_decoded : Codec → Text → Option Fields → Text
unfolding ensure_object member
ensure_decoded codec body none = body
ensure_decoded codec body (some v) =
    if is_true (member (codes "stream") v) then codec.marshal (obj (ensure_object v)) else body

-- A value that is no object is left as it is; so is one that does not ask for a stream.
unfoldable pub ensure_stream_usage : Codec → Text → Text
unfolding ensure_decoded
ensure_stream_usage codec body = ensure_decoded codec body (as_object (codec.unmarshal body))
