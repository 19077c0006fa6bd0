-- ===== src/Client/Selection.antt =====
-- lib/config.ts and lib/api-topology.ts of src/client: the topology that is selected, as the browser
-- keeps it in its storage and as a request carries it in a cookie.
use Prim.Native.String.{◌++◌}
use mathlib.Core.Option.{some-injective}
use eutxo_l2_interop.Base.{
  ℕ, String, ◌≡◌, refl, ap, ◌↔◌, Bool, true, List, [], Option, none, some, if◌then◌else◌, find,
  str_eq, is_empty, is_some, arith, eq_iff, not,
}
use eutxo_l2_interop.Store.{Result, ok, throw, plain}
use eutxo_l2_interop.Client.Users.{UserName}
use eutxo_l2_interop.Client.Topologies.{
  TopologyId, two_heads, single_path, hub_and_spoke, topology_text, route_text, HydraHeadConfig,
  get_topology_config,
}

-- Where the code runs: `window` is undefined on the server. `stored` is the item under
-- "hydra-topology" of the browser's storage.
pub record Client : Type 0 where
  pub in_browser : Bool
  pub stored : Option String

unfoldable pub known_topology : String → Option TopologyId
known_topology text =
    if str_eq text "two-heads"
    then some two_heads
    else if str_eq text "single-path"
    then some single_path
    else if str_eq text "hub-and-spoke"
    then some hub_and_spoke
    else none

abbrev pub known_item : Option String → Option TopologyId
known_item none = none
known_item (some text) = known_topology text

unfoldable pub get_selected_topology : Client → Option TopologyId
unfolding known_topology
get_selected_topology s = if s.in_browser then known_item s.stored else none

unfoldable pub set_selected_topology : TopologyId → Client → Client
set_selected_topology id s =
    if s.in_browser then record s { stored = some (topology_text id) } else s

unfoldable pub clear_selected_topology : Client → Client
clear_selected_topology s = if s.in_browser then record s { stored = none } else s

unfoldable pub get_hydra_heads : Client → List HydraHeadConfig
get_hydra_heads s = elim (get_selected_topology s) [
  | none ↦ []
  | some id ↦ (get_topology_config id).heads
]

-- The argument is the cookie's value, if the request has the cookie.
unfoldable pub get_topology_from_cookie : Option String → Option TopologyId
unfolding known_topology
get_topology_from_cookie cookie = known_item cookie

unfoldable pub get_head_config_from_cookie :
    Option String → String → Option (TopologyId × HydraHeadConfig)
unfolding get_topology_from_cookie get_topology_config
get_head_config_from_cookie cookie head_route = elim (get_topology_from_cookie cookie) [
  | none ↦ none
  | some id ↦
      elim (find (λ head. str_eq (route_text head.route) head_route)
        (get_topology_config id).heads) [ none ↦ none | some config ↦ some (id, config) ]
]

abbrev pub has_url : UserName × String → Bool
has_url node = not (is_empty node.1)

-- The first address of a head that is not empty.
unfoldable pub get_head_node_url : HydraHeadConfig → Result String
get_head_node_url config = elim (find has_url config.nodes) [
  | none ↦ throw (plain ("No node URL found for head " ++ config.name))
  | some node ↦ ok node.1
]

-- The two answers of app/api/topology, with the cookie that is left.
pub data TopologyReply : Type 0 where
  accepted : (id : TopologyId) → TopologyReply
  cleared : TopologyReply
  rejected : (status : ℕ) (error : String) → TopologyReply

-- The request's body: not JSON, or the value of `topology` in it where that is a text.
pub data TopologyBody : Type 0 where
  not_json : TopologyBody
  topology : Option String → TopologyBody

abbrev pub store_topology : Option TopologyId → Option String → TopologyReply × Option String
store_topology none cookie = (rejected 400 "Invalid topology", cookie)
store_topology (some id) cookie = (accepted id, some (topology_text id))

unfoldable pub post_topology : TopologyBody → Option String → TopologyReply × Option String
unfolding known_topology
post_topology not_json cookie = (rejected 500 "Failed to set topology", cookie)
post_topology (topology value) cookie = store_topology (known_item value) cookie

unfoldable pub delete_topology : Option String → TopologyReply × Option String
delete_topology cookie = (cleared, none)

known_topology-text :
    (text : String) (id : TopologyId) → (known_topology text ≡ some id) ↔ (text ≡ topology_text id)
unfolding known_topology
known_topology-text text two_heads = (
  λ e.
      ground
        (arith, eq_iff text "two-heads", eq_iff text "single-path", eq_iff text "hub-and-spoke"),
  λ e. rw e,
)
known_topology-text text single_path = (
  λ e.
      ground
        (arith, eq_iff text "two-heads", eq_iff text "single-path", eq_iff text "hub-and-spoke"),
  λ e. rw e,
)
known_topology-text text hub_and_spoke = (
  λ e.
      ground
        (arith, eq_iff text "two-heads", eq_iff text "single-path", eq_iff text "hub-and-spoke"),
  λ e. rw e,
)

known_item-text :
    (item : Option String) (id : TopologyId)
    → (known_item item ≡ some id) ↔ (item ≡ some (topology_text id))
known_item-text none id = (λ e. cc, λ e. cc)
known_item-text (some text) id = (
  λ e. ap some ((known_topology-text text id).0 e),
  λ e. (known_topology-text text id).1 (some-injective _ _ e),
)

selected-of_stored :
    (s : Client) (id : TopologyId)
    → s.in_browser ≡ true
    → (get_selected_topology s ≡ some id) ↔ (s.stored ≡ some (topology_text id))
unfolding get_selected_topology
selected-of_stored s id here = rw here (known_item-text s.stored id)

get_hydra_heads-of :
    (s : Client) (id : TopologyId)
    → get_selected_topology s ≡ some id
    → get_hydra_heads s ≡ (get_topology_config id).heads
unfolding get_hydra_heads
get_hydra_heads-of s id e = rw (e, get_hydra_heads)

get_hydra_heads-none : (s : Client) → get_selected_topology s ≡ none → get_hydra_heads s ≡ []
unfolding get_hydra_heads
get_hydra_heads-none s e = rw (e, get_hydra_heads)

set-in_browser :
    (s : Client) (id : TopologyId)
    → s.in_browser ≡ true
    → set_selected_topology id s ≡ record s { stored = some (topology_text id) }
unfolding set_selected_topology
set-in_browser s id here = simp here

clear-in_browser :
    (s : Client) → s.in_browser ≡ true → clear_selected_topology s ≡ record s { stored = none }
unfolding clear_selected_topology
clear-in_browser s here = simp here

set-selected :
    (s : Client) (id : TopologyId)
    → s.in_browser ≡ true
    → get_selected_topology (set_selected_topology id s) ≡ some id
set-selected s id here = rw (set-in_browser s id here) ((selected-of_stored _ id here).1 refl)

clear-selected :
    (s : Client) → s.in_browser ≡ true → get_selected_topology (clear_selected_topology s) ≡ none
unfolding get_selected_topology
clear-selected s here = rw (clear-in_browser s here) (rw here)

-- In a browser the selection is the topology whose name is stored and nothing else; so a topology
-- that is set is read back with its heads, whatever was stored before, and after the selection is
-- cleared there is none and no head.
pub set_selected_topology-read :
    (s : Client) (id : TopologyId)
    → s.in_browser ≡ true
    → ((get_selected_topology s ≡ some id) ↔ (s.stored ≡ some (topology_text id)))
      × (get_selected_topology (set_selected_topology id s) ≡ some id)
      × (get_hydra_heads (set_selected_topology id s) ≡ (get_topology_config id).heads)
      × (get_selected_topology (clear_selected_topology s) ≡ none)
      × (get_hydra_heads (clear_selected_topology s) ≡ [])
set_selected_topology-read s id here = (
  selected-of_stored s id here,
  set-selected s id here,
  get_hydra_heads-of _ id (set-selected s id here),
  clear-selected s here,
  get_hydra_heads-none _ (clear-selected s here),
)

store-read :
    (found : Option TopologyId) (cookie : Option String)
    → (get_topology_from_cookie (store_topology found cookie).1
        ≡ (if is_some found then found else get_topology_from_cookie cookie))
unfolding get_topology_from_cookie
store-read none cookie = refl
store-read (some id) cookie = (known_item-text _ id).1 refl

-- What a later request reads from the cookie that app/api/topology leaves: the topology that was
-- posted, if its text names one, and what the cookie held before if it does not or the body is no
-- JSON; nothing once the topology was deleted.
pub post_topology-read :
    (value cookie : Option String)
    → (get_topology_from_cookie (post_topology (topology value) cookie).1 ≡ (
        if is_some (known_item value) then known_item value else get_topology_from_cookie cookie))
      × (get_topology_from_cookie (post_topology not_json cookie).1
          ≡ get_topology_from_cookie cookie)
      × (get_topology_from_cookie (delete_topology cookie).1 ≡ none)
unfolding post_topology delete_topology get_topology_from_cookie
post_topology-read value cookie = (store-read (known_item value) cookie, refl, refl)
