-- ===== src/Examples/Console.antt =====
-- The properties of the console at the two keys.
use opencode_proxy.Base.{◌≡◌, refl, List, ◌∷◌}
use opencode_proxy.Store.Types.{Key, Db}
use opencode_proxy.Store.Keys.{key_by_id, set_active}
use opencode_proxy.Store.Routing.{eligible_keys}
use opencode_proxy.Api.Keys.{accepted, activate_key}
use opencode_proxy.Api.Keys.Activated.{activate_key-eligible_keys}
use opencode_proxy.Examples.{two_keys, two_keys-IsConsistent, later}

abbrev activated_db : Db
activated_db = (activate_key 1 later two_keys).1

is_accepted : activate_key 1 later two_keys ≡ (accepted, activated_db)
unfolding activate_key key_by_id set_active
is_accepted = refl

activate_key-eligible_keys_example :
    (k : Key) × (rest : List Key) × (k.id ≡ 1) × (eligible_keys activated_db ≡ k ∷ rest)
activate_key-eligible_keys_example =
    activate_key-eligible_keys 1 later two_keys activated_db two_keys-IsConsistent is_accepted
