-- ===== src/Client/Topologies.antt =====
-- lib/topologies.ts of src/client: the heads and the payment paths of the three topologies.
use eutxo_l2_interop.Base.{String, List, [], ◌∷◌, map}
use eutxo_l2_interop.Client.Users.{UserName}

pub data TopologyId : Type 0 where
  two_heads single_path hub_and_spoke : TopologyId

abbrev pub topology_text : TopologyId → String
topology_text two_heads = "two-heads"
topology_text single_path = "single-path"
topology_text hub_and_spoke = "hub-and-spoke"

pub data PaymentUser : Type 0 where
  alice bob charlie : PaymentUser

-- A payment user as one of all users.
abbrev pub user_of : PaymentUser → UserName
user_of alice = UserName.alice
user_of bob = UserName.bob
user_of charlie = UserName.charlie

-- The letters of the template type `head-${"a" | "b" | "c"}`.
pub data HeadLetter : Type 0 where
  a b c : HeadLetter

abbrev pub letter_text : HeadLetter → String
letter_text a = "a"
letter_text b = "b"
letter_text c = "c"

abbrev pub route_text : HeadLetter → String
route_text a = "head-a"
route_text b = "head-b"
route_text c = "head-c"

-- One end of a step: a user in a head.
pub record Place : Type 0 where
  pub name : UserName
  pub head : String

pub record PaymentStep : Type 0 where
  pub from : Place
  pub to : Place

-- `PaymentPaths`: a table of tables, each with the keys that it has.
abbrev pub PaymentPaths : Type 0
PaymentPaths = List (PaymentUser × List (PaymentUser × List PaymentStep))

pub record HydraHeadConfig : Type 0 where
  pub name : String
  pub route : HeadLetter
  pub head_id : String
  pub tag : String
  pub nodes : List (UserName × String)

pub record TopologyConfig : Type 0 where
  pub id : TopologyId
  pub name : String
  pub description : String
  pub heads : List HydraHeadConfig
  pub payment_paths : PaymentPaths

abbrev hop : UserName → String → UserName → String → PaymentStep
hop u h v k = record { from = record { name = u; head = h }; to = record { name = v; head = k } }

unfoldable pub two_heads_config : TopologyConfig
two_heads_config = record {
  id = two_heads;
  name = "Two Heads";
  description = "Alice/Ida ↔ Bob/Ida";
  heads =
      record {
        name = "Head A";
        route = a;
        head_id = "0000000000000000000000000000000000000000000000000000000000000001";
        tag = "Open";
        nodes =
            (UserName.alice, "http://localhost:4011")
            ∷ (UserName.ida, "http://localhost:4019")
            ∷ [];
      }
      ∷ record {
        name = "Head B";
        route = b;
        head_id = "0000000000000000000000000000000000000000000000000000000000000002";
        tag = "Open";
        nodes =
            (UserName.bob, "http://localhost:4022") ∷ (UserName.ida, "http://localhost:4029") ∷ [];
      }
      ∷ [];
  payment_paths =
      (
        PaymentUser.alice,
        (
          PaymentUser.bob,
          hop UserName.alice "a" UserName.ida "a" ∷ hop UserName.ida "b" UserName.bob "b" ∷ [],
        )
            ∷ [],
      )
      ∷ (
        PaymentUser.bob,
        (
          PaymentUser.alice,
          hop UserName.bob "b" UserName.ida "b" ∷ hop UserName.ida "a" UserName.alice "a" ∷ [],
        )
            ∷ [],
      )
      ∷ [];
}

unfoldable pub single_path_config : TopologyConfig
single_path_config = record {
  id = single_path;
  name = "Single Path";
  description = "Alice/Ida ↔ Bob/Ida/Jon ↔ Charlie/Jon";
  heads =
      record {
        name = "Head A";
        route = a;
        head_id = "0000000000000000000000000000000000000000000000000000000000000001";
        tag = "Open";
        nodes =
            (UserName.alice, "http://localhost:4111")
            ∷ (UserName.ida, "http://localhost:4119")
            ∷ [];
      }
      ∷ record {
        name = "Head B";
        route = b;
        head_id = "0000000000000000000000000000000000000000000000000000000000000002";
        tag = "Open";
        nodes =
            (UserName.bob, "http://localhost:4122")
            ∷ (UserName.jon, "http://localhost:4128")
            ∷ (UserName.ida, "http://localhost:4129")
            ∷ [];
      }
      ∷ record {
        name = "Head C";
        route = c;
        head_id = "0000000000000000000000000000000000000000000000000000000000000003";
        tag = "Open";
        nodes =
            (UserName.charlie, "http://localhost:4133")
            ∷ (UserName.jon, "http://localhost:4138")
            ∷ [];
      }
      ∷ [];
  payment_paths =
      (
        PaymentUser.alice,
        (
          PaymentUser.bob,
          hop UserName.alice "a" UserName.ida "a" ∷ hop UserName.ida "b" UserName.bob "b" ∷ [],
        )
            ∷ (
              PaymentUser.charlie,
              hop UserName.alice "a" UserName.ida "a"
                  ∷ hop UserName.ida "b" UserName.jon "b"
                  ∷ hop UserName.jon "c" UserName.charlie "c"
                  ∷ [],
            )
            ∷ [],
      )
      ∷ (
        PaymentUser.bob,
        (
          PaymentUser.alice,
          hop UserName.bob "b" UserName.ida "b" ∷ hop UserName.ida "a" UserName.alice "a" ∷ [],
        )
            ∷ (
              PaymentUser.charlie,
              hop UserName.bob "b" UserName.jon "b"
                  ∷ hop UserName.jon "c" UserName.charlie "c"
                  ∷ [],
            )
            ∷ [],
      )
      ∷ (
        PaymentUser.charlie,
        (
          PaymentUser.alice,
          hop UserName.charlie "c" UserName.jon "c"
              ∷ hop UserName.jon "b" UserName.ida "b"
              ∷ hop UserName.ida "a" UserName.alice "a"
              ∷ [],
        )
            ∷ (
              PaymentUser.bob,
              hop UserName.charlie "c" UserName.jon "c"
                  ∷ hop UserName.jon "b" UserName.bob "b"
                  ∷ [],
            )
            ∷ [],
      )
      ∷ [];
}

unfoldable pub hub_and_spoke_config : TopologyConfig
hub_and_spoke_config = record {
  id = hub_and_spoke;
  name = "Hub and Spoke";
  description = "3 spokes: Alice/Ida, Bob/Ida, Charlie/Ida";
  heads =
      record {
        name = "Head A";
        route = a;
        head_id = "0000000000000000000000000000000000000000000000000000000000000001";
        tag = "Open";
        nodes =
            (UserName.alice, "http://localhost:4211")
            ∷ (UserName.ida, "http://localhost:4219")
            ∷ [];
      }
      ∷ record {
        name = "Head B";
        route = b;
        head_id = "0000000000000000000000000000000000000000000000000000000000000002";
        tag = "Open";
        nodes =
            (UserName.bob, "http://localhost:4222") ∷ (UserName.ida, "http://localhost:4229") ∷ [];
      }
      ∷ record {
        name = "Head C";
        route = c;
        head_id = "0000000000000000000000000000000000000000000000000000000000000003";
        tag = "Open";
        nodes =
            (UserName.charlie, "http://localhost:4233")
            ∷ (UserName.ida, "http://localhost:4239")
            ∷ [];
      }
      ∷ [];
  payment_paths =
      (
        PaymentUser.alice,
        (
          PaymentUser.bob,
          hop UserName.alice "a" UserName.ida "a" ∷ hop UserName.ida "b" UserName.bob "b" ∷ [],
        )
            ∷ (
              PaymentUser.charlie,
              hop UserName.alice "a" UserName.ida "a"
                  ∷ hop UserName.ida "c" UserName.charlie "c"
                  ∷ [],
            )
            ∷ [],
      )
      ∷ (
        PaymentUser.bob,
        (
          PaymentUser.alice,
          hop UserName.bob "b" UserName.ida "b" ∷ hop UserName.ida "a" UserName.alice "a" ∷ [],
        )
            ∷ (
              PaymentUser.charlie,
              hop UserName.bob "b" UserName.ida "b"
                  ∷ hop UserName.ida "c" UserName.charlie "c"
                  ∷ [],
            )
            ∷ [],
      )
      ∷ (
        PaymentUser.charlie,
        (
          PaymentUser.alice,
          hop UserName.charlie "c" UserName.ida "c" ∷ hop UserName.ida "a" UserName.alice "a" ∷ [],
        )
            ∷ (
              PaymentUser.bob,
              hop UserName.charlie "c" UserName.ida "c"
                  ∷ hop UserName.ida "b" UserName.bob "b"
                  ∷ [],
            )
            ∷ [],
      )
      ∷ [];
}

unfoldable pub get_topology_config : TopologyId → TopologyConfig
unfolding two_heads_config single_path_config hub_and_spoke_config
get_topology_config two_heads = two_heads_config
get_topology_config single_path = single_path_config
get_topology_config hub_and_spoke = hub_and_spoke_config

unfoldable pub get_all_topologies : List TopologyConfig
unfolding get_topology_config
get_all_topologies = map get_topology_config (two_heads ∷ single_path ∷ hub_and_spoke ∷ [])
