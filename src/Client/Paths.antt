-- ===== src/Client/Paths.antt =====
-- lib/topologies.ts and lib/users.ts of src/client: looking up payment paths and node addresses.
pub mod Routes
use eutxo_l2_interop.Base.{
  ℕ, String, Bool, true, false, ◌==◌, List, [], ◌∷◌, Option, none, some, if◌then◌else◌, find, any,
  str_eq, ◌||◌, ◌&&◌, not, is_empty,
}
use Prim.Native.String.{◌++◌}
use eutxo_l2_interop.Store.{Result, ok, throw, plain}
use eutxo_l2_interop.Client.Users.{UserName, user_text, same_user}
use eutxo_l2_interop.Client.Topologies.{
  TopologyId, topology_text, PaymentUser, user_of, HeadLetter, letter_text, Place, PaymentStep,
  PaymentPaths, HydraHeadConfig, TopologyConfig, get_topology_config,
}

-- `table[user]` on a table of payment users.
unfoldable pub of_user : {A : Type 0} → PaymentUser → List (PaymentUser × A) → Option A
of_user u [] = none
of_user u ((v, x) ∷ table) = if same_user (user_of v) (user_of u) then some x else of_user u table

-- `steps[steps.length - 1]`.
unfoldable pub last_of : PaymentStep → List PaymentStep → PaymentStep
last_of step [] = step
last_of step (next ∷ steps) = last_of next steps

-- `paymentPaths[from]?.[to]`, before the heads are compared.
unfoldable pub path_between : TopologyConfig → PaymentUser → PaymentUser → Option (List PaymentStep)
unfolding of_user
path_between topology u v = elim (of_user u topology.payment_paths) [
  | none ↦ none
  | some user_paths ↦ of_user v user_paths
]

-- A path is given out only if it starts and ends in the heads asked for.
unfoldable pub between_heads :
    HeadLetter → HeadLetter → List PaymentStep → Option (List PaymentStep)
unfolding last_of
between_heads h k [] = none
between_heads h k (first ∷ steps) =
    if not (str_eq first.from.head (letter_text h))
      || not (str_eq (last_of first steps).to.head (letter_text k))
    then none
    else some (first ∷ steps)

unfoldable pub find_payment_path :
    Option TopologyConfig
    → PaymentUser
    → HeadLetter
    → PaymentUser
    → HeadLetter
    → Option (List PaymentStep)
unfolding path_between between_heads
find_payment_path none u h v k = none
find_payment_path (some topology) u h v k = elim (path_between topology u v) [
  | none ↦ none
  | some steps ↦ between_heads h k steps
]

-- `automatedIntermediaries.includes(name)`.
abbrev pub is_intermediary : UserName → Bool
is_intermediary name = same_user UserName.ida name || same_user UserName.jon name

unfoldable pub is_automated_step : PaymentStep → Bool
is_automated_step step = is_intermediary step.from.name

unfoldable pub is_intermediary_receiver : PaymentStep → Bool
is_intermediary_receiver step = is_intermediary step.to.name

-- `nodes[name]`.
unfoldable pub node_of : UserName → List (UserName × String) → Option String
node_of name [] = none
node_of name ((user, url) ∷ nodes) = if same_user user name then some url else node_of name nodes

-- `head-${head}` is a route only for one of the three letters.
abbrev pub has_route : String → HydraHeadConfig → Bool
has_route head config = str_eq (letter_text config.route) head

unfoldable pub url_in : UserName → String → TopologyConfig → Option String
unfolding node_of
url_in name head topology = elim (find (has_route head) topology.heads) [
  | none ↦ none
  | some config ↦ node_of name config.nodes
]

-- A missing or empty address throws.
abbrev pub url_or_throw : UserName → TopologyId → String → Option String → Result String
url_or_throw name topology head (some (String.◌∷◌ ch rest)) = ok (String.◌∷◌ ch rest)
url_or_throw name topology head _ = throw (
    plain (
      "User "
      ++ user_text name
      ++ " not found in topology "
      ++ topology_text topology
      ++ " for head "
      ++ head))

unfoldable pub get_user_node_url : UserName → TopologyId → String → Result String
unfolding url_in get_topology_config
get_user_node_url name topology head =
    url_or_throw name topology head (url_in name head (get_topology_config topology))
