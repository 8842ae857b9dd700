-- ===== src/Proxy/Header.antt =====
-- http.Header, and the header functions at the end of internal/proxy/service.go. Names are in the
-- canonical spelling that net/http gives them; the list is the order of the `range` over the map.
pub mod Entries
pub mod Privacy
use opencode_proxy.Base.{Bool, ◌||◌, List, [], ◌∷◌, ◌++◌, if◌then◌else◌, exists}
use opencode_proxy.Text.{Text, text_eq, codes, to_lower}

abbrev pub Header : Type 0
Header = List (Text × List Text)

-- `h.Get(name)`: the first value, or the empty text.
unfoldable pub get : Text → Header → Text
get name [] = []
get name ((k, []) ∷ rest) = let later = get name rest in if text_eq k name then [] else later
get name ((k, v ∷ vs) ∷ rest) = let later = get name rest in if text_eq k name then v else later

-- `h.Add(name, value)`.
unfoldable pub add : Text → Text → Header → Header
add name value [] = (name, value ∷ []) ∷ []
add name value ((k, vs) ∷ rest) =
    let later = add name value rest in
    if text_eq k name then (k, vs ++ value ∷ []) ∷ rest else (k, vs) ∷ later

-- `h.Set(name, value)`.
unfoldable pub set : Text → Text → Header → Header
set name value [] = (name, value ∷ []) ∷ []
set name value ((k, vs) ∷ rest) =
    let later = set name value rest in
    if text_eq k name then (k, value ∷ []) ∷ rest else (k, vs) ∷ later

unfoldable pub add_all : Text → List Text → Header → Header
unfolding add
add_all name [] dst = dst
add_all name (v ∷ vs) dst = add_all name vs (add name v dst)

abbrev pub hop_names : List Text
hop_names =
    codes "connection"
    ∷ codes "proxy-connection"
    ∷ codes "keep-alive"
    ∷ codes "proxy-authenticate"
    ∷ codes "proxy-authorization"
    ∷ codes "te"
    ∷ codes "trailer"
    ∷ codes "transfer-encoding"
    ∷ codes "upgrade"
    ∷ []

unfoldable pub hop_header : Text → Bool
hop_header k = exists (text_eq (to_lower k)) hop_names

-- `strings.EqualFold` with a lower-case ASCII name.
abbrev pub equal_fold : Text → Text → Bool
equal_fold k name = text_eq (to_lower k) name

-- Names that the proxy sets itself, or that must not reach the upstream.
abbrev pub private_names : List Text
private_names =
    codes "authorization"
    ∷ codes "x-api-key"
    ∷ codes "host"
    ∷ codes "content-length"
    ∷ codes "accept-encoding"
    ∷ []

unfoldable pub dropped_from_request : Text → Bool
unfolding hop_header
dropped_from_request k = hop_header k || exists (equal_fold k) private_names

unfoldable pub dropped_from_response : Text → Bool
unfolding hop_header
dropped_from_response k = hop_header k || equal_fold k (codes "content-length")

unfoldable pub copy_request_headers : Header → Header → Header
unfolding add_all
copy_request_headers dst [] = dst
copy_request_headers dst ((k, vs) ∷ src) =
    copy_request_headers (if dropped_from_request k then dst else add_all k vs dst) src

unfoldable pub copy_response_headers : Header → Header → Header
unfolding add_all
copy_response_headers dst [] = dst
copy_response_headers dst ((k, vs) ∷ src) =
    copy_response_headers (if dropped_from_response k then dst else add_all k vs dst) src
