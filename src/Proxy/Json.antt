-- ===== src/Proxy/Json.antt =====
-- A decoded JSON value, as `json.Unmarshal` into `any` gives it. An object lists its members in the
-- order in which a `range` over the map visits them, which Go leaves open: so a statement about all
-- objects holds for every order. A number is a float64: `num` where it is an integer that an int64
-- holds, and `real` for any other, with the text that `json.Marshal` writes of it and the int64 that
-- the source converts it to.
use opencode_proxy.Base.{Bool, List, [], ◌∷◌, ◌++◌, Option, none, some, if◌then◌else◌}
use opencode_proxy.Base.Int.{ℤ}
use opencode_proxy.Text.{Text, text_eq}
use opencode_proxy.Time.{Time}

mutual
  pub data Json : Type 0 where
    null : Json
    boolean : Bool → Json
    num : ℤ → Json
    real : Text → ℤ → Json
    str : Text → Json
    arr : Items → Json
    obj : Fields → Json

  pub data Items : Type 0 where
    nil : Items
    cons : Json → Items → Items

  pub data Fields : Type 0 where
    end : Fields
    field : Text → Json → Fields → Fields

-- `m[key]` on a decoded object.
unfoldable pub member : Text → Fields → Option Json
member key end = none
member key (field k v rest) = let later = member key rest in if text_eq k key then some v else later

-- `v.(map[string]any)`.
abbrev pub as_object : Option Json → Option Fields
as_object none = none
as_object (some null) = none
as_object (some (boolean b)) = none
as_object (some (num n)) = none
as_object (some (real s n)) = none
as_object (some (str s)) = none
as_object (some (arr xs)) = none
as_object (some (obj fs)) = some fs

unfoldable mutual
  -- `collectStrings`: the strings of a value, in the order of the visit.
  pub collect_strings : Json → List Text
  collect_strings null = []
  collect_strings (boolean b) = []
  collect_strings (num n) = []
  collect_strings (real s n) = []
  collect_strings (str s) = s ∷ []
  collect_strings (arr xs) = collect_items xs
  collect_strings (obj fs) = collect_fields fs

  pub collect_items : Items → List Text
  collect_items nil = []
  collect_items (cons x xs) = collect_strings x ++ collect_items xs

  pub collect_fields : Fields → List Text
  collect_fields end = []
  collect_fields (field k v rest) = collect_strings v ++ collect_fields rest

-- The standard library's codecs, whose formats the model does not spell out: JSON, the HTTP date.
pub record Codec : Type 0 where
  pub unmarshal : Text → Option Json
  pub marshal : Json → Text
  pub parse_http_time : Text → Option Time
