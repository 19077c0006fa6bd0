-- ===== src/Client/Validation.antt =====
-- lib/validate-topology.ts of src/client: whether all nodes of a topology answer.
use Prim.Native.String.{◌++◌}
use eutxo_l2_interop.Base.{
  String, ◌≡◌, refl, Bool, true, false, ◌&&◌, ◌||◌, not, List, [], ◌∷◌, if◌then◌else◌, str_eq,
  filter, any, all, length, ◌==◌, arith,
}
use mathlib.Core.List.{◌++◌ as append}
use eutxo_l2_interop.Executor.Errors.{includes}
use eutxo_l2_interop.Client.Users.{UserName, user_text}
use eutxo_l2_interop.Client.Topologies.{HydraHeadConfig}
use eutxo_l2_interop.Client.Selection.{has_url}

-- What comes of asking a node for its snapshot within three seconds. `http` has the status and its
-- text; `raised` an `Error` of the request or of reading the JSON; `raised_other` another exception.
pub data NodeAnswer : Type 0 where
  healthy : NodeAnswer
  http : String → NodeAnswer
  raised : (name message : String) → NodeAnswer
  raised_other : NodeAnswer

abbrev pub is_healthy : NodeAnswer → Bool
is_healthy healthy = true
is_healthy _ = false

pub record ValidationResult : Type 0 where
  pub valid : Bool
  pub errors : List String

abbrev pub node_label : HydraHeadConfig → UserName × String → String
node_label head node = head.name ++ " (" ++ user_text node.0 ++ " @ " ++ node.1 ++ "): "

-- What the promise of a node returns, and what it adds to the errors.
unfoldable pub check_node : HydraHeadConfig → UserName × String → NodeAnswer → Bool × List String
check_node head node healthy = (true, [])
check_node head node (http status) = (false, (node_label head node ++ "HTTP " ++ status) ∷ [])
check_node head node (raised name message) = (
  false,
  (node_label head node
        ++ (if str_eq name "AbortError"
            then "Timeout - node not responding"
            else if includes "fetch" message || includes "ECONNREFUSED" message
            then "Connection refused - node not running"
            else message))
      ∷ [],
)
check_node head node raised_other = (false, (node_label head node ++ "Unknown error") ∷ [])

-- The results of one loop, followed by those of the rest.
abbrev joined : Bool × List String → List Bool × List String → List Bool × List String
joined (result, errors) (results, more) = (result ∷ results, append errors more)

abbrev pub no_errors : List String → Bool
no_errors errors = length errors == 0

module _ (answers : HydraHeadConfig → UserName × String → NodeAnswer) where
  unfoldable pub check_nodes :
      HydraHeadConfig → List (UserName × String) → List Bool × List String → List Bool × List String
  unfolding check_node
  check_nodes head [] rest = rest
  check_nodes head (node ∷ nodes) rest =
      joined (check_node head node (answers head node)) (check_nodes head nodes rest)

  -- The nodes with an address: a head with none is an error of its own.
  unfoldable pub check_usable :
      HydraHeadConfig → List (UserName × String) → List Bool × List String → List Bool × List String
  unfolding check_nodes
  check_usable head [] rest = joined (false, (head.name ++ ": No nodes configured") ∷ []) rest
  check_usable head (node ∷ nodes) rest = check_nodes head (node ∷ nodes) rest

  unfoldable pub check_head : HydraHeadConfig → List Bool × List String → List Bool × List String
  unfolding check_usable
  check_head head rest = check_usable head (filter has_url head.nodes) rest

  unfoldable pub check_heads : List HydraHeadConfig → List Bool × List String
  unfolding check_head
  check_heads [] = ([], [])
  check_heads (head ∷ heads) = check_head head (check_heads heads)

  -- The errors stand in the order of the nodes; the source has those of nodes in the order in which
  -- their answers arrive.
  unfoldable pub validate_topology : List HydraHeadConfig → ValidationResult
  unfolding check_heads
  validate_topology heads =
      let (results, errors) = check_heads heads in
      record { valid = all (λ r. r) results && length errors == 0; errors = errors }

  -- The description: each head has a node with an address, and all of these are healthy.
  abbrev pub node_ok : HydraHeadConfig → UserName × String → Bool
  node_ok head node = is_healthy (answers head node)

  abbrev pub head_ok : HydraHeadConfig → Bool
  head_ok head =
      any has_url head.nodes && all (λ node. not (has_url node) || node_ok head node) head.nodes

  abbrev passes : List Bool × List String → Bool
  passes (results, errors) = all (λ r. r) results

  -- A list of outcomes passes exactly if it has no errors.
  abbrev Agrees : List Bool × List String → Type 0
  Agrees found = passes found ≡ no_errors found.1

  node-Agrees :
      (head : HydraHeadConfig) (node : UserName × String) (answer : NodeAnswer)
      (rest : List Bool × List String)
      → Agrees rest
      → Agrees (joined (check_node head node answer) rest)
        × (passes (joined (check_node head node answer) rest) ≡ (is_healthy answer && passes rest))
  unfolding check_node
  node-Agrees head node healthy rest h = (h, refl)
  node-Agrees head node (http status) rest h = ground arith
  node-Agrees head node (raised name message) rest h = ground arith
  node-Agrees head node raised_other rest h = ground arith

  nodes-Agrees :
      (head : HydraHeadConfig) (nodes : List (UserName × String)) (rest : List Bool × List String)
      → Agrees rest
      → Agrees (check_nodes head nodes rest)
        × (passes (check_nodes head nodes rest) ≡ (all (node_ok head) nodes && passes rest))
  unfolding check_nodes
  nodes-Agrees head [] rest h = (h, refl)
  nodes-Agrees head (node ∷ nodes) rest h =
      let ih = nodes-Agrees head nodes rest h in
      let now = node-Agrees head node (answers head node) (check_nodes head nodes rest) ih.0 in
      (now.0, ground arith)

  all-filter :
      (head : HydraHeadConfig) (nodes : List (UserName × String))
      → all (node_ok head) (filter has_url nodes)
        ≡ all (λ node. not (has_url node) || node_ok head node) nodes
  all-filter head [] = refl
  all-filter head (node ∷ nodes) = ground (arith, all-filter head nodes)

  any-filter :
      (nodes : List (UserName × String))
      → any has_url nodes ≡ not (length (filter has_url nodes) == 0)
  any-filter [] = refl
  any-filter (node ∷ nodes) = ground (arith, any-filter nodes)

  usable-Agrees :
      (head : HydraHeadConfig) (nodes : List (UserName × String)) (rest : List Bool × List String)
      → Agrees rest
      → Agrees (check_usable head nodes rest)
        × (passes (check_usable head nodes rest)
            ≡ (not (length nodes == 0) && all (node_ok head) nodes && passes rest))
  unfolding check_usable
  usable-Agrees head [] rest h = (ground arith, refl)
  usable-Agrees head (node ∷ nodes) rest h =
      let found = nodes-Agrees head (node ∷ nodes) rest h in (found.0, ground arith)

  head-Agrees :
      (head : HydraHeadConfig) (rest : List Bool × List String)
      → Agrees rest
      → Agrees (check_head head rest)
        × (passes (check_head head rest) ≡ (head_ok head && passes rest))
  unfolding check_head
  head-Agrees head rest h =
      let found = usable-Agrees head (filter has_url head.nodes) rest h in
      (found.0, ground (arith, any-filter head.nodes, all-filter head head.nodes))

  heads-Agrees :
      (heads : List HydraHeadConfig)
      → Agrees (check_heads heads) × (passes (check_heads heads) ≡ all head_ok heads)
  unfolding check_heads
  heads-Agrees [] = (refl, refl)
  heads-Agrees (head ∷ heads) =
      let ih = heads-Agrees heads in
      let now = head-Agrees head (check_heads heads) ih.0 in (now.0, ground arith)

  -- The validation passes exactly if every head has a node with an address and each such node
  -- answers in time, with success and with JSON; and exactly then there is no error to show.
  pub validate_topology-valid :
      (heads : List HydraHeadConfig)
      → ((validate_topology heads).valid ≡ all head_ok heads)
        × ((validate_topology heads).valid ≡ no_errors (validate_topology heads).errors)
  unfolding validate_topology
  validate_topology-valid heads =
      let (agree, same) = heads-Agrees heads in (ground arith, ground arith)
