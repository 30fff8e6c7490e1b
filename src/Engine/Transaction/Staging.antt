-- ===== src/Engine/Transaction/Staging.antt =====
-- engine.go: what a transaction collects before its commit, `begin`, `recordBatch`, `stageCreate` and
-- `stageDelete`.
pub mod Laws
use nestory.Common.{ℕ, ◌-◌, true, not, Option, none, some, List, [], if◌then◌else◌}
use nestory.Common.Maps.{find, put}
use nestory.Relations.Node.{NodeKey, node_equality}
use nestory.Engine.Resources.{TouchedResource, TransactionState, record_batch}
use nestory.Engine.Transaction.{Transaction, TransactionError, expired, already_exists}

module _ {A : Type 0} where
  unfoldable pub begin : Transaction A
  begin = record {
    active = true;
    state = record { resource = none; resources = []; resource_pos = none };
    creates = [];
    deletes = [];
  }

  unfoldable pub created : Transaction A → NodeKey → Option A
  unfolding find
  created tx key = find key tx.creates

  unfoldable pub stage_create :
      NodeKey → A → Transaction A → Transaction A × Option TransactionError
  unfolding created put
  stage_create key work tx = if not tx.active then (tx, some expired) else elim (created tx key) [
    | some other ↦ (tx, some (already_exists key))
    | none ↦ (record tx { creates = put key work tx.creates }, none)
  ]

  unfoldable pub stage_delete :
      NodeKey → ℕ → Transaction A → Transaction A × Option TransactionError
  unfolding put
  stage_delete key ver tx =
      if not tx.active
      then (tx, some expired)
      else (record tx { deletes = put key ver tx.deletes }, none)

  unfoldable pub record_resources : List (TouchedResource A) → Transaction A → Transaction A
  unfolding record_batch
  record_resources batch tx = record tx { state = record_batch batch tx.state }

  -- the transactions that the operations build
  pub data Staged : Transaction A → Type 0 where
    started : Staged begin
    recorded :
        (batch : List (TouchedResource A)) {tx : Transaction A}
        → Staged tx
        → Staged (record_resources batch tx)
    created_node :
        (key : NodeKey) (work : A) {tx : Transaction A}
        → Staged tx
        → Staged (stage_create key work tx).0
    deleted_node :
        (key : NodeKey) (ver : ℕ) {tx : Transaction A}
        → Staged tx
        → Staged (stage_delete key ver tx).0
