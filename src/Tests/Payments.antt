-- ===== src/Tests/Payments.antt =====
-- The theorems on the client's payments at concrete inputs.
use eutxo_l2_interop.Base.{
  String, ◌≡◌, ◌≢◌, refl, ◌↔◌, true, false, List, [], ◌∷◌, Option, none, some, str_eq, eq_iff,
  is_some, if◌then◌else◌,
}
use eutxo_l2_interop.Base.Maps.{lookup}
use eutxo_l2_interop.Client.Users.{UserName, same_user}
use eutxo_l2_interop.Client.Topologies.{
  two_heads, single_path, hub_and_spoke, alice, charlie, a, c, PaymentStep, HydraHeadConfig,
  get_topology_config,
}
use eutxo_l2_interop.Client.Paths.{find_payment_path, get_user_node_url}
use eutxo_l2_interop.Client.Paths.Routes.{
  IsRoute, find_payment_path-IsRoute, find_payment_path-is_some,
}
use eutxo_l2_interop.Client.Selection.{
  Client, get_selected_topology, set_selected_topology, clear_selected_topology, get_hydra_heads,
  get_topology_from_cookie, post_topology, delete_topology, topology, not_json,
  set_selected_topology-read, post_topology-read,
}
use eutxo_l2_interop.Client.Validation.{
  NodeAnswer, healthy, raised, validate_topology, no_errors, validate_topology-valid,
}
use eutxo_l2_interop.Client.Assets.{FromUnit, Assets, assets_to_data_pairs, data_pairs_to_assets}
use eutxo_l2_interop.Client.Assets.RoundTrip.{data_pairs_to_assets-assets_to_data_pairs}
use Prim.Native.Nat.{ℕ, zero, suc}

abbrev head_a_url : String
head_a_url = "http://localhost:4011"

-- A unit is cut after 56 hex digits, the length of a policy; "lovelace" is shorter.
abbrev take_text : ℕ → String → String
take_text zero text = ""
take_text (suc n) String.[] = ""
take_text (suc n) (String.◌∷◌ ch rest) = String.◌∷◌ ch (take_text n rest)

abbrev drop_text : ℕ → String → String
drop_text zero text = text
drop_text (suc n) String.[] = ""
drop_text (suc n) (String.◌∷◌ ch rest) = drop_text n rest

abbrev some_name : String → Option String
some_name String.[] = none
some_name (String.◌∷◌ ch rest) = some (String.◌∷◌ ch rest)

abbrev cut_unit : FromUnit
cut_unit unit = (take_text 56 unit, some_name (drop_text 56 unit))

abbrev ticket_policy : String
ticket_policy = "0123456789abcdef0123456789abcdef0123456789abcdef01234567"

abbrev ticket_unit : String
ticket_unit = "0123456789abcdef0123456789abcdef0123456789abcdef012345675449434b4554"

abbrev two_assets : Assets ℕ
two_assets = ("lovelace", 2000000) ∷ (ticket_unit, 1) ∷ []

differ : (s t : String) → str_eq s t ≡ false → s ≢ t
differ s t h e = cc ((eq_iff s t).1 e)

data_pairs_to_assets-assets_to_data_pairs_example :
    lookup ticket_unit (data_pairs_to_assets (assets_to_data_pairs cut_unit two_assets))
    ≡ lookup ticket_unit two_assets
unfolding lookup
data_pairs_to_assets-assets_to_data_pairs_example =
    data_pairs_to_assets-assets_to_data_pairs cut_unit two_assets (refl, (refl, tt))
      ((differ "lovelace" "" refl, refl), ((differ ticket_policy "" refl, refl), tt)) ticket_unit

abbrev step_between : UserName → UserName → String → PaymentStep
step_between u v h = record {
  from = record { name = u; head = h };
  to = record { name = v; head = h };
}

abbrev three_steps : List PaymentStep
three_steps =
    step_between UserName.alice UserName.ida "a"
    ∷ step_between UserName.ida UserName.jon "b"
    ∷ step_between UserName.jon UserName.charlie "c"
    ∷ []

find_payment_path-IsRoute_example :
    IsRoute single_path UserName.alice "a" three_steps UserName.charlie "c"
unfolding find_payment_path get_topology_config
find_payment_path-IsRoute_example =
    find_payment_path-IsRoute single_path alice charlie a c three_steps refl

find_payment_path-is_some_example :
    is_some (find_payment_path (some (get_topology_config two_heads)) alice a charlie c) ≡ false
unfolding get_user_node_url get_topology_config
find_payment_path-is_some_example = find_payment_path-is_some two_heads alice charlie a c

abbrev fresh_browser : Client
fresh_browser = record { in_browser = true; stored = some "no topology" }

set_selected_topology-read_example :
    ((get_selected_topology fresh_browser ≡ some hub_and_spoke)
      ↔ (fresh_browser.stored ≡ some "hub-and-spoke"))
    × (get_selected_topology (set_selected_topology hub_and_spoke fresh_browser)
        ≡ some hub_and_spoke)
    × (get_hydra_heads (set_selected_topology hub_and_spoke fresh_browser)
        ≡ (get_topology_config hub_and_spoke).heads)
    × (get_selected_topology (clear_selected_topology fresh_browser) ≡ none)
    × (get_hydra_heads (clear_selected_topology fresh_browser) ≡ [])
set_selected_topology-read_example = set_selected_topology-read fresh_browser hub_and_spoke refl

post_topology-read_example :
    (get_topology_from_cookie (post_topology (topology (some "three-heads")) (some "two-heads")).1
      ≡ get_topology_from_cookie (some "two-heads"))
    × (get_topology_from_cookie (post_topology not_json (some "two-heads")).1
        ≡ get_topology_from_cookie (some "two-heads"))
    × (get_topology_from_cookie (delete_topology (some "two-heads")).1 ≡ none)
unfolding get_topology_from_cookie
post_topology-read_example = post_topology-read (some "three-heads") (some "two-heads")

-- The nodes of Ida do not answer in time.
abbrev without_ida : HydraHeadConfig → UserName × String → NodeAnswer
without_ida head node =
    if same_user node.0 UserName.ida then raised "AbortError" "aborted" else healthy

validate_topology-valid_example :
    ((validate_topology without_ida (get_topology_config two_heads).heads).valid ≡ false)
    × ((validate_topology without_ida (get_topology_config two_heads).heads).valid
        ≡ no_errors (validate_topology without_ida (get_topology_config two_heads).heads).errors)
unfolding get_topology_config
validate_topology-valid_example =
    validate_topology-valid without_ida (get_topology_config two_heads).heads
