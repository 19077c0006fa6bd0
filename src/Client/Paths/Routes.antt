-- ===== src/Client/Paths/Routes.antt =====
-- The configured payment paths, against a description of what a route through the heads is.
use eutxo_l2_interop.Base.{
  String, ◌≡◌, refl, Bool, true, false, List, [], ◌∷◌, Option, none, some, ◌&&◌, not, arith, eq_iff,
  is_some,
}
use eutxo_l2_interop.Store.{Result, ok, throw}
use eutxo_l2_interop.Client.Users.{UserName, same_user}
use eutxo_l2_interop.Client.Topologies.{
  TopologyId, two_heads, single_path, hub_and_spoke, PaymentUser, alice, bob, charlie, user_of,
  HeadLetter, a, b, c, letter_text, PaymentStep, get_topology_config,
}
use eutxo_l2_interop.Client.Paths.{
  find_payment_path, path_between, between_heads, last_of, is_intermediary, get_user_node_url,
}

abbrev answered : {A : Type 0} → Result A → Bool
answered (ok _) = true
answered (throw _) = false

-- The user has a node in the head.
abbrev pub serves : TopologyId → UserName → String → Bool
serves id name head = answered (get_user_node_url name id head)

-- A step stays in one head, in which both of its users have a node.
abbrev pub IsHop : TopologyId → PaymentStep → Type 0
IsHop id step =
    (step.from.head ≡ step.to.head)
    × (serves id step.from.name step.from.head ≡ true)
    × (serves id step.to.name step.to.head ≡ true)

-- The steps lead from a user in a head to another: each is a hop, and between two of them stands an
-- intermediary, who receives the first and sends the second.
abbrev pub IsRoute : TopologyId → UserName → String → List PaymentStep → UserName → String → Type 0
IsRoute id u h [] v k = ⊥
IsRoute id u h (s ∷ []) v k =
    IsHop id s × (s.from.name ≡ u) × (s.from.head ≡ h) × (s.to.name ≡ v) × (s.to.head ≡ k)
IsRoute id u h (s ∷ t ∷ steps) v k =
    IsHop id s
    × (s.from.name ≡ u)
    × (s.from.head ≡ h)
    × (is_intermediary s.to.name ≡ true)
    × IsRoute id s.to.name t.from.head (t ∷ steps) v k

-- What `path_between` gives is a route between the heads in which it starts and ends.
abbrev first_head : List PaymentStep → String
first_head [] = ""
first_head (s ∷ steps) = s.from.head

abbrev last_head : List PaymentStep → String
last_head [] = ""
last_head (s ∷ []) = s.to.head
last_head (s ∷ t ∷ steps) = last_head (t ∷ steps)

abbrev LeadsBetween : TopologyId → PaymentUser → PaymentUser → Option (List PaymentStep) → Type 0
LeadsBetween id u v none = Unit
LeadsBetween id u v (some steps) =
    IsRoute id (user_of u) (first_head steps) steps (user_of v) (last_head steps)

every_user : (P : PaymentUser → Type 0) → P alice → P bob → P charlie → (u : PaymentUser) → P u
every_user P x y z alice = x
every_user P x y z bob = y
every_user P x y z charlie = z

ruleset closed = (tt, refl)

path_between-leads :
    (id : TopologyId) (u v : PaymentUser)
    → LeadsBetween id u v (path_between (get_topology_config id) u v)
unfolding path_between get_topology_config get_user_node_url
path_between-leads two_heads alice = every_user _ (search closed) (search closed) (search closed)
path_between-leads two_heads bob = every_user _ (search closed) (search closed) (search closed)
path_between-leads two_heads charlie = every_user _ (search closed) (search closed) (search closed)
path_between-leads single_path alice = every_user _ (search closed) (search closed) (search closed)
path_between-leads single_path bob = every_user _ (search closed) (search closed) (search closed)
path_between-leads single_path charlie =
    every_user _ (search closed) (search closed) (search closed)
path_between-leads hub_and_spoke alice =
    every_user _ (search closed) (search closed) (search closed)
path_between-leads hub_and_spoke bob = every_user _ (search closed) (search closed) (search closed)
path_between-leads hub_and_spoke charlie =
    every_user _ (search closed) (search closed) (search closed)

last_of-head :
    (first : PaymentStep) (steps : List PaymentStep)
    → (last_of first steps).to.head ≡ last_head (first ∷ steps)
unfolding last_of
last_of-head first [] = refl
last_of-head first (next ∷ steps) = last_of-head next steps

between_heads-eq-some :
    (h k : HeadLetter) (steps : List PaymentStep) {found : List PaymentStep}
    → between_heads h k steps ≡ some found
    → (steps ≡ found) × (first_head steps ≡ letter_text h) × (last_head steps ≡ letter_text k)
unfolding between_heads
between_heads-eq-some h k [] e = cc
between_heads-eq-some h k (first ∷ steps) e = ground (
  arith,
  eq_iff first.from.head (letter_text h),
  eq_iff (last_of first steps).to.head (letter_text k),
  last_of-head first steps,
)

IsRoute-of_path :
    (id : TopologyId) (u v : PaymentUser) (h k : HeadLetter) (path : Option (List PaymentStep))
    {found : List PaymentStep}
    → LeadsBetween id u v path
    → elim path [ none ↦ none | some steps ↦ between_heads h k steps ] ≡ some found
    → IsRoute id (user_of u) (letter_text h) found (user_of v) (letter_text k)
IsRoute-of_path id u v h k none leads e = cc
IsRoute-of_path id u v h k (some steps) leads e =
    let (same, first, last) = between_heads-eq-some h k steps e in rw (first, last, same) at leads

-- In each of the three topologies, a path that is found for two users and two heads is a route from
-- the one user in the one head to the other in the other: every step stays in one head in which
-- both its sender and its receiver have a node, each step but the last is received by an
-- intermediary, and this one sends the next step.
pub find_payment_path-IsRoute :
    (id : TopologyId) (u v : PaymentUser) (h k : HeadLetter) (steps : List PaymentStep)
    → find_payment_path (some (get_topology_config id)) u h v k ≡ some steps
    → IsRoute id (user_of u) (letter_text h) steps (user_of v) (letter_text k)
unfolding find_payment_path
find_payment_path-IsRoute id u v h k steps e =
    IsRoute-of_path id u v h k (path_between (get_topology_config id) u v)
      (path_between-leads id u v) e

every_pair :
    (P : HeadLetter → HeadLetter → Type 0)
    → (P a a × P a b × P a c) × (P b a × P b b × P b c) × (P c a × P c b × P c c)
    → (h k : HeadLetter) → P h k
every_pair P (x, y, z) a = λ k. elim k as (P a) [ a ↦ x.0 | b ↦ x.1 | c ↦ x.2 ]
every_pair P (x, y, z) b = λ k. elim k as (P b) [ a ↦ y.0 | b ↦ y.1 | c ↦ y.2 ]
every_pair P (x, y, z) c = λ k. elim k as (P c) [ a ↦ z.0 | b ↦ z.1 | c ↦ z.2 ]

-- A path is found exactly for two different users, the first with a node in the head where the
-- payment starts, the second with one in the head where it ends.
pub find_payment_path-is_some :
    (id : TopologyId) (u v : PaymentUser) (h k : HeadLetter)
    → is_some (find_payment_path (some (get_topology_config id)) u h v k) ≡ (
        not (same_user (user_of u) (user_of v))
        && serves id (user_of u) (letter_text h)
        && serves id (user_of v) (letter_text k))
unfolding find_payment_path get_topology_config get_user_node_url
find_payment_path-is_some two_heads alice =
    every_user _ (every_pair _ (search closed)) (every_pair _ (search closed))
      (every_pair _ (search closed))
find_payment_path-is_some two_heads bob =
    every_user _ (every_pair _ (search closed)) (every_pair _ (search closed))
      (every_pair _ (search closed))
find_payment_path-is_some two_heads charlie =
    every_user _ (every_pair _ (search closed)) (every_pair _ (search closed))
      (every_pair _ (search closed))
find_payment_path-is_some single_path alice =
    every_user _ (every_pair _ (search closed)) (every_pair _ (search closed))
      (every_pair _ (search closed))
find_payment_path-is_some single_path bob =
    every_user _ (every_pair _ (search closed)) (every_pair _ (search closed))
      (every_pair _ (search closed))
find_payment_path-is_some single_path charlie =
    every_user _ (every_pair _ (search closed)) (every_pair _ (search closed))
      (every_pair _ (search closed))
find_payment_path-is_some hub_and_spoke alice =
    every_user _ (every_pair _ (search closed)) (every_pair _ (search closed))
      (every_pair _ (search closed))
find_payment_path-is_some hub_and_spoke bob =
    every_user _ (every_pair _ (search closed)) (every_pair _ (search closed))
      (every_pair _ (search closed))
find_payment_path-is_some hub_and_spoke charlie =
    every_user _ (every_pair _ (search closed)) (every_pair _ (search closed))
      (every_pair _ (search closed))
