-- ===== src/Policy.antt =====
-- Who may ask for what in src/final-demo: lib/interaction-policy.ts, lib/wallet/mock-wallets.ts
-- and lib/request-funds-amount.ts.
pub mod Gate
use eutxo_l2_interop.Base.{
  ℕ, String, Bool, true, false, ◌&&◌, not, List, [], ◌∷◌, ◌++◌, Option, none, some, if◌then◌else◌,
  ltb, leb, str_eq, trim, to_lower, matches_all, is_digit, number_of_digits, filter,
}
use eutxo_l2_interop.Store.{Sys, HeadName, head_a, head_b, head_c}
use eutxo_l2_interop.Heads.{HeadStatus, opened, get_heads_state, HeadsState, HeadReadModel}

abbrev pub request_funds_max_lovelace : ℕ
request_funds_max_lovelace = 10_000_000

unfoldable pub parse_request_funds_lovelace_string : String → Option ℕ
unfolding trim matches_all number_of_digits
parse_request_funds_lovelace_string raw =
    if matches_all is_digit (trim raw) then some (number_of_digits (trim raw)) else none

unfoldable pub is_request_funds_amount_allowed : ℕ → Bool
is_request_funds_amount_allowed amount = ltb 0 amount && leb amount request_funds_max_lovelace

pub data DemoActor : Type 0 where
  ida user charlie : DemoActor

abbrev pub actor_name : DemoActor → String
actor_name ida = "ida"
actor_name user = "user"
actor_name charlie = "charlie"

pub record MockWallet : Type 0 where
  pub actor : DemoActor
  pub used_addresses : List String
  pub change_address : String

abbrev pub mock_wallets : List MockWallet
mock_wallets =
    record {
      actor = user;
      used_addresses = "61aa00112233445566778899aabbccddeeff00112233445566778899" ∷ [];
      change_address = "61aa00112233445566778899aabbccddeeff00112233445566778899";
    }
    ∷ record {
      actor = ida;
      used_addresses = "61bb00112233445566778899aabbccddeeff00112233445566778899" ∷ [];
      change_address = "61bb00112233445566778899aabbccddeeff00112233445566778899";
    }
    ∷ record {
      actor = charlie;
      used_addresses = "61cc00112233445566778899aabbccddeeff00112233445566778899" ∷ [];
      change_address = "61cc00112233445566778899aabbccddeeff00112233445566778899";
    }
    ∷ []

unfoldable pub normalize_address : String → String
unfolding trim to_lower
normalize_address value = to_lower (trim value)

abbrev pub entries_of : DemoActor → List String → List (String × DemoActor)
entries_of actor [] = []
entries_of actor (address ∷ rest) = (normalize_address address, actor) ∷ entries_of actor rest

-- ACTOR_BY_ADDRESS; no two wallets share an address, so the order does not matter.
abbrev pub actor_by_address : List MockWallet → List (String × DemoActor)
actor_by_address [] = []
actor_by_address (w ∷ ws) =
    entries_of w.actor (w.change_address ∷ w.used_addresses) ++ actor_by_address ws

abbrev pub actor_at : String → List (String × DemoActor) → Option DemoActor
actor_at address [] = none
actor_at address ((a, actor) ∷ rest) =
    if str_eq a address then some actor else actor_at address rest

unfoldable pub resolve_actor_by_address : String → Option DemoActor
unfolding normalize_address
resolve_actor_by_address address =
    actor_at (normalize_address address) (actor_by_address mock_wallets)

-- The heads where a purchase can start: head A, or head C for Charlie.
unfoldable pub derive_source_head : DemoActor → HeadName
derive_source_head charlie = head_c
derive_source_head _ = head_a

unfoldable pub validate_request_funds_actor : String → Bool
validate_request_funds_actor actor = str_eq actor "user"

unfoldable pub validate_buy_ticket_actor : String → Option DemoActor
validate_buy_ticket_actor actor =
    if str_eq actor "user" then some user else if str_eq actor "charlie" then some charlie else none

abbrev pub required_heads_for_request_funds : List HeadName
required_heads_for_request_funds = head_a ∷ []

unfoldable pub required_heads_for_buy_ticket : DemoActor → List HeadName
required_heads_for_buy_ticket charlie = head_b ∷ head_c ∷ []
required_heads_for_buy_ticket _ = head_a ∷ head_b ∷ []

abbrev pub is_opened : HeadStatus → Bool
is_opened opened = true
is_opened _ = false

abbrev pub read_model_of : HeadName → HeadsState → HeadReadModel
read_model_of head_a h = h.head_a
read_model_of head_b h = h.head_b
read_model_of head_c h = h.head_c

unfoldable pub get_closed_required_heads :
    (stale_threshold_ms : ℕ) → List HeadName → Sys → List HeadName
unfolding get_heads_state
get_closed_required_heads stale_threshold_ms required s =
    let heads = get_heads_state stale_threshold_ms s in
    filter (λ name. not (is_opened (read_model_of name heads).status)) required
