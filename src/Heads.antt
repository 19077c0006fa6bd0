-- ===== src/Heads.antt =====
-- lib/heads.ts of src/final-demo: the table of head snapshots and the read model made of it.
use eutxo_l2_interop.Base.{
  ℕ, ◌-◌, max, String, Bool, List, [], ◌∷◌, Option, none, some, if◌then◌else◌, ltb, find, str_eq,
  or_else,
}
use eutxo_l2_interop.Store.{Sys, HeadName, HeadSnapshot, same_head, update_where}

-- `opened` is the source's "open".
pub data HeadStatus : Type 0 where
  connected disconnected idle opened closed : HeadStatus

unfoldable pub as_head_status : Option String → HeadStatus
as_head_status none = disconnected
as_head_status (some value) =
    if str_eq value "connected"
    then connected
    else if str_eq value "disconnected"
    then disconnected
    else if str_eq value "idle"
    then idle
    else if str_eq value "open"
    then opened
    else if str_eq value "closed"
    then closed
    else disconnected

pub record HeadReadModel : Type 0 where
  pub status : HeadStatus
  pub detail : String
  pub updated_at : ℕ
  pub age_ms : ℕ
  pub is_stale : Bool

abbrev pub status_of : Option HeadSnapshot → Option String
status_of none = none
status_of (some row) = some row.status

abbrev pub detail_of : Option HeadSnapshot → String
detail_of none = "Not connected yet"
detail_of (some row) = or_else row.detail "Not connected yet"

abbrev pub updated_at_of : Option HeadSnapshot → ℕ → ℕ
updated_at_of none fallback = fallback
updated_at_of (some row) fallback = row.updated_at

-- `Math.max(0, now - t)` is the subtraction of the natural numbers.
unfoldable pub build_head_read_model :
    (stale_threshold_ms : ℕ) → Option HeadSnapshot → (fallback now : ℕ) → HeadReadModel
unfolding as_head_status
build_head_read_model stale_threshold_ms row fallback now = record {
  status = as_head_status (status_of row);
  detail = detail_of row;
  updated_at = updated_at_of row fallback;
  age_ms = now - updated_at_of row fallback;
  is_stale = ltb stale_threshold_ms (now - updated_at_of row fallback);
}

pub record HeadsState : Type 0 where
  pub head_a : HeadReadModel
  pub head_b : HeadReadModel
  pub head_c : HeadReadModel
  pub updated_at : ℕ
  pub age_ms : ℕ
  pub is_stale : Bool

-- `NEVER_UPDATED_AT` is time 0.
abbrev pub latest_update : List HeadSnapshot → ℕ
latest_update [] = 0
latest_update (row ∷ rows) = max row.updated_at (latest_update rows)

abbrev pub snapshot_of : HeadName → Sys → Option HeadSnapshot
snapshot_of name s = find (λ row. same_head row.head_name name) s.heads

unfoldable pub get_heads_state : (stale_threshold_ms : ℕ) → Sys → HeadsState
unfolding build_head_read_model
get_heads_state stale_threshold_ms s =
    let latest = latest_update s.heads in
    let model = λ (name : HeadName).
      build_head_read_model stale_threshold_ms (snapshot_of name s) latest s.clock in
    record {
      head_a = model HeadName.head_a;
      head_b = model HeadName.head_b;
      head_c = model HeadName.head_c;
      updated_at = latest;
      age_ms = s.clock - latest;
      is_stale = ltb stale_threshold_ms (s.clock - latest);
    }

-- The database sets `updatedAt` on each write.
unfoldable pub upsert_head_state : HeadName → String → String → Sys → Sys
unfolding update_where
upsert_head_state name status detail s = elim (snapshot_of name s) [
  | none ↦ record s {
    heads =
        record { head_name = name; status = status; detail = some detail; updated_at = s.clock }
        ∷ s.heads;
  }
  | some _ ↦ record s {
    heads =
        update_where (λ row. same_head row.head_name name)
          (λ row. record row { status = status; detail = some detail; updated_at = s.clock })
          s.heads;
  }
]

-- What the heartbeat learns of a head: its status by websocket, or the reason why there is none,
-- and then whether the plain API answers.
pub data Probe : Type 0 where
  up : (status detail : String) → Probe
  reachable : Probe
  down : (reason : String) → Probe

abbrev pub status_name : HeadStatus → String
status_name connected = "connected"
status_name disconnected = "disconnected"
status_name idle = "idle"
status_name opened = "open"
status_name closed = "closed"

unfoldable pub record_probe : HeadName → Probe → Sys → Sys
unfolding upsert_head_state
record_probe name (up status detail) s = upsert_head_state name status detail s
record_probe name reachable s =
    upsert_head_state name "connected" "Hydra API reachable (websocket status unavailable)" s
record_probe name (down reason) s = upsert_head_state name "disconnected" reason s

-- In mock mode the row is written back as it was read, normalised.
unfoldable pub rewrite_head : HeadName → Option HeadSnapshot → Sys → Sys
unfolding upsert_head_state as_head_status
rewrite_head name row s =
    upsert_head_state name (status_name (as_head_status (status_of row))) (detail_of row) s

-- `probe` is the network's answer for each head; `none` stands for mock mode.
unfoldable pub sync_head_snapshots_heartbeat : Option (HeadName → Probe) → Sys → Sys
unfolding record_probe rewrite_head
sync_head_snapshots_heartbeat (some probe) s =
    record_probe HeadName.head_c (probe HeadName.head_c) (
      record_probe HeadName.head_b (probe HeadName.head_b)
        (record_probe HeadName.head_a (probe HeadName.head_a) s))
sync_head_snapshots_heartbeat none s =
    rewrite_head HeadName.head_c (snapshot_of HeadName.head_c s) (
      rewrite_head HeadName.head_b (snapshot_of HeadName.head_b s)
        (rewrite_head HeadName.head_a (snapshot_of HeadName.head_a s) s))
