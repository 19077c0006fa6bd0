-- ===== src/Lottery.antt =====
-- lib/lottery-instances.ts of src/final-demo: the registry of lotteries, of which one may be
-- active.
pub mod Race
use eutxo_l2_interop.Base.{
  ℕ, String, Bool, true, false, ◌&&◌, not, List, [], ◌∷◌, Option, none, some, if◌then◌else◌, ltb,
  str_eq, trim, to_lower, matches_all, is_lower_hex, utf16_length, ◌==◌, count_where, filter,
}
use eutxo_l2_interop.Store.{
  Sys, LotteryInstance, HeadName, head_a, head_b, head_c, Exception, plain, Result, ok, throw,
}

pub data Normalized : Type 0 where
  hex : String → Normalized
  rejected : Exception → Normalized

unfoldable pub normalize_hex : String → String → Normalized
unfolding trim to_lower matches_all
normalize_hex label input =
    if matches_all is_lower_hex (to_lower (trim input))
    then hex (to_lower (trim input))
    else rejected (plain label)

abbrev pub is_active : LotteryInstance → Bool
is_active row = str_eq row.status "active"

abbrev pub head_text : HeadName → String
head_text head_a = "headA"
head_text head_b = "headB"
head_text head_c = "headC"

pub record LotteryInput : Type 0 where
  pub head_name : HeadName
  pub policy_id : String
  pub token_name_hex : String
  pub mint_tx_hash : String
  pub contract_address : String

abbrev pub new_lottery : (id now : ℕ) → (policy_id token mint address : String) → LotteryInstance
new_lottery id now policy_id token mint address = record {
  id = id;
  head_name = "headB";
  policy_id = policy_id;
  token_name_hex = token;
  mint_tx_hash = mint;
  contract_address = address;
  status = "active";
  created_at = now;
}

unfoldable pub map_row : LotteryInstance → LotteryInstance
unfolding to_lower
map_row row = record row {
  policy_id = to_lower row.policy_id;
  token_name_hex = to_lower row.token_name_hex;
  mint_tx_hash = to_lower row.mint_tx_hash;
}

-- The insertion, behind a count of the active rows. `others` is what other requests do between
-- the count and the insertion, which no transaction joins.
unfoldable pub insert_if_none_active :
    (Sys → Sys) → LotteryInstance → Sys → Result LotteryInstance × Sys
unfolding map_row
insert_if_none_active others row s =
    if ltb 0 (count_where is_active s.lotteries)
    then (throw (plain "Cannot register a new lottery while another active lottery exists"), s)
    else let s' = others s in (ok (map_row row), record s' { lotteries = row ∷ s'.lotteries })

abbrev pub is_head_b : HeadName → Bool
is_head_b head_b = true
is_head_b _ = false

abbrev pub with_hex :
    Normalized → (String → Result LotteryInstance × Sys) → Sys → Result LotteryInstance × Sys
with_hex (hex t) k s = k t
with_hex (rejected e) k s = (throw e, s)

unfoldable pub register_active_lottery_for_head :
    (Sys → Sys) → (id : ℕ) → LotteryInput → Sys → Result LotteryInstance × Sys
unfolding normalize_hex utf16_length insert_if_none_active
register_active_lottery_for_head others id input s =
    if not (is_head_b input.head_name)
    then (throw (plain "Only headB can hold an active lottery"), s)
    else with_hex (normalize_hex "policyId must be lowercase hex" input.policy_id)
        (λ policy_id.
          if not (utf16_length policy_id == 56)
          then (throw (plain "policyId must be 56 hex chars"), s)
          else with_hex (normalize_hex "tokenNameHex must be lowercase hex" input.token_name_hex)
              (λ token.
                with_hex (normalize_hex "mintTxHash must be lowercase hex" input.mint_tx_hash)
                  (λ mint.
                    insert_if_none_active others
                      (new_lottery id s.clock policy_id token mint input.contract_address) s)
                  s)
              s)
        s

-- The row with the latest `createdAt`.
abbrev pub newest : List LotteryInstance → Option LotteryInstance
newest [] = none
newest (row ∷ rows) = elim (newest rows) [
  | none ↦ some row
  | some other ↦ some (if ltb row.created_at other.created_at then other else row)
]

abbrev pub mapped : Option LotteryInstance → Option LotteryInstance
mapped none = none
mapped (some row) = some (map_row row)

-- The query asks for the head's name, so `assertHead` in `mapRow` never throws.
unfoldable pub get_active_lottery_for_head : HeadName → Sys → Result (Option LotteryInstance)
unfolding map_row
get_active_lottery_for_head name s =
    if not (is_head_b name)
    then throw (plain "Only headB can hold an active lottery")
    else ok (
        mapped (
          newest
            (filter (λ row. str_eq row.head_name (head_text name) && is_active row) s.lotteries)))
