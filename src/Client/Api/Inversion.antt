-- ===== src/Client/Api/Inversion.antt =====
-- What is known of a handler's steps once it has gone on past them.
use mathlib.Core.Option.{some-injective}
use mathlib.Core.Path.{subst}
use eutxo_l2_interop.Base.{
  ℕ, String, ◌≡◌, refl, ap, ◌∙◌, Bool, true, false, List, [], ◌∷◌, Option, none, some,
  if◌then◌else◌, str_eq, eq_iff, arith, Bool-cases, inl, inr,
}
use eutxo_l2_interop.Store.{Result, ok}
use eutxo_l2_interop.Client.Users.{UserName, user_text}
use eutxo_l2_interop.Client.Topologies.{HydraHeadConfig, TopologyId}
use eutxo_l2_interop.Client.Selection.{get_head_config_from_cookie, get_head_node_url}
use eutxo_l2_interop.Client.Api.{
  Flow, next, return, crash, ◌>>=◌, demand, found_or, user_named, finish, answer_of, TxOutcome,
  unbuilt, unsigned, rejected, unconfirmed, confirmed, Reply, refused, head_of, open_head, Lucid,
  flow_of,
}

module _ {A B : Type 0} where
  pub >>=-eq-next :
      (m : Flow A) (f : A → Flow B) {b : B}
      → (m >>= f) ≡ next b
      → (a : A) × (m ≡ next a) × (f a ≡ next b)
  >>=-eq-next (next a) f e = (a, refl, e)
  >>=-eq-next (return r) f e = cc
  >>=-eq-next (crash m) f e = cc

  pub bind-next : (m : Flow A) (f : A → Flow B) {a : A} → m ≡ next a → (m >>= f) ≡ f a
  bind-next m f e = λ i. e i >>= f

  pub bind-return : (m : Flow A) (f : A → Flow B) {r : Reply} → m ≡ return r → (m >>= f) ≡ return r
  bind-return m f e = λ i. e i >>= f

module _ {A : Type 0} where
  pub next-injective : (a b : A) → next a ≡ next b → a ≡ b
  next-injective a b e = cc

  pub found_or-next_of_return :
      (o : Option A) (r : Reply) {a : A} → found_or o (return r) ≡ next a → o ≡ some a
  found_or-next_of_return none r e = cc
  found_or-next_of_return (some b) r e = cc

  pub found_or-next_of_crash :
      (o : Option A) (m : String) {a : A} → found_or o (crash m) ≡ next a → o ≡ some a
  found_or-next_of_crash none m e = cc
  found_or-next_of_crash (some b) m e = cc

  pub flow_of-next : (r : Result A) {a : A} → flow_of r ≡ next a → r ≡ ok a
  flow_of-next r e = ground arith

  -- A transaction was sent only if the code before it produced it.
  pub finish-sent :
      (error : String) (outcome : A → TxOutcome) (flow : Flow A) {tx : A}
      → (finish error outcome flow).1 ≡ some tx
      → flow ≡ next tx
  unfolding finish
  finish-sent error outcome (return r) e = cc
  finish-sent error outcome (crash m) e = cc
  finish-sent error outcome (next tx) e = by_outcome (outcome tx) e
    where
      by_outcome : (o : TxOutcome) {sent : A} → (answer_of tx o).1 ≡ some sent → next tx ≡ next sent
      by_outcome (unbuilt m) f = cc
      by_outcome (unsigned m) f = cc
      by_outcome (rejected m) f = cc
      by_outcome (unconfirmed h m) f = cc
      by_outcome (confirmed h) f = cc

pub demand-next :
    (test : Bool) (status : ℕ) (error : String) {u : Unit {0}}
    → demand test status error ≡ next u
    → test ≡ true
demand-next true status error e = refl
demand-next false status error e = cc

pub demand-pass :
    {B : Type 0} (test : Bool) (status : ℕ) (error : String) (rest : Flow B)
    → test ≡ true
    → (demand test status error >>= λ _. rest) ≡ rest
demand-pass test status error rest e = λ i. demand (e i) status error >>= λ _. rest

pub json-pass :
    {B : Type 0} (is_json : Bool) (message : String) (rest : Flow B)
    → is_json ≡ true
    → ((if is_json then next tt else crash message) >>= λ (_ : Unit {0}). rest) ≡ rest
json-pass is_json message rest e =
    λ i. (if e i then next tt else crash message) >>= λ (_ : Unit {0}). rest

-- Past a check of the request the check has passed.
pub demand->> :
    {B : Type 0} (test : Bool) (status : ℕ) (error : String) (rest : Flow B) {b : B}
    → (demand test status error >>= λ _. rest) ≡ next b
    → (test ≡ true) × (rest ≡ next b)
demand->> true status error rest e = (refl, e)
demand->> false status error rest e = cc

pub json->> :
    {B : Type 0} (is_json : Bool) (message : String) (rest : Flow B) {b : B}
    → ((if is_json then next tt else crash message) >>= λ (_ : Unit {0}). rest) ≡ next b
    → rest ≡ next b
json->> true message rest e = e
json->> false message rest e = cc

pub user_named-text :
    (names : List UserName) (text : String) {user : UserName}
    → user_named names text ≡ some user
    → user_text user ≡ text
unfolding user_named
user_named-text [] text e = cc
user_named-text (name ∷ names) text {user} e = elim (Bool-cases (str_eq (user_text name) text)) [
  | inl same ↦
      subst (λ u. user_text u ≡ text) (some-injective _ _ (rw same at e))
        ((eq_iff (user_text name) text).0 same)
  | inr other ↦ user_named-text names text (rw other at e)
]

pub head_of-next :
    (cookie : Option String) (head_route : String) {config : HydraHeadConfig}
    → head_of cookie head_route ≡ next config
    → (id : TopologyId) × (get_head_config_from_cookie cookie head_route ≡ some (id, config))
head_of-next cookie head_route e = by_found (get_head_config_from_cookie cookie head_route) e
  where
    by_found :
        (found : Option (TopologyId × HydraHeadConfig)) {config : HydraHeadConfig}
        → elim found [
          | none ↦ return (refused 400 "Topology not selected or head not found" none)
          | some pair ↦ next pair.1
        ]
          ≡ next config
        → (id : TopologyId) × (found ≡ some (id, config))
    by_found none f = cc
    by_found (some (id, config)) f = (id, cc)

pub open_head-next :
    (lucid : Lucid) (config : HydraHeadConfig) {url : String}
    → open_head lucid config ≡ next url
    → get_head_node_url config ≡ ok url
unfolding open_head
open_head-next lucid config e =
    let (url, got, rest) = >>=-eq-next (flow_of (get_head_node_url config)) _ e in
    flow_of-next _ got ∙ ap ok (by_answer (lucid.connect url) url rest)
  where
    by_answer :
        (answer : Option String) (url : String) {opened : String}
        → elim answer [ none ↦ next url | some message ↦ crash message ] ≡ next opened
        → url ≡ opened
    by_answer none url f = cc
    by_answer (some m) url f = cc
