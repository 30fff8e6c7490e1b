-- ===== src/Engine/Resources.antt =====
-- engine.go: the resources that a transaction has touched. From the eighth on their positions are in
-- a map, `resourcePos`; `recordBatch` and `work` use it where it is set and a scan where it is not.
pub mod Laws
pub mod Record
pub mod Work
use nestory.Common.{
  ℕ, zero, suc, ◌+◌, Bool, true, false, ◌&&◌, ◌||◌, not, Option, none, some, List, [], ◌∷◌, ◌++◌,
  leb, ◌==◌, if◌then◌else◌, length, get_elem?, bind_option,
}
use nestory.Common.Int.{ℤ}
use nestory.Common.Bytes.{Bytes}
use nestory.SecondaryIndex.Value.{compare_int, compare_bytes}
use nestory.SecondaryIndex.Search.{is_equal}

pub record TransactionResourceKey : Type 0 where
  pub db_name : Bytes
  pub id : ℤ

pub record TouchedResource (A : Type 0) : Type 0 where
  pub db_name : Bytes
  pub id : ℤ
  pub ver : ℕ
  pub work : A
  pub original : A

-- the equality of the names and the ids
unfoldable pub same_key : TransactionResourceKey → TransactionResourceKey → Bool
unfolding compare_int compare_bytes
same_key a b = is_equal (compare_bytes a.db_name b.db_name) && is_equal (compare_int a.id b.id)

abbrev pub resource_key : {A : Type 0} → TouchedResource A → TransactionResourceKey
resource_key r = record { db_name = r.db_name; id = r.id }

-- the map `resourcePos`, as the function that finds a position
abbrev pub Positions : Type 0
Positions = TransactionResourceKey → Option ℕ

-- the first resource is a field of its own, the others are a slice
pub record TransactionState (A : Type 0) : Type 0 where
  pub resource : Option (TouchedResource A)
  pub resources : List (TouchedResource A)
  pub resource_pos : Option Positions

unfoldable pub set_position : TransactionResourceKey → ℕ → Positions → Positions
unfolding same_key
set_position key position m other = if same_key key other then some position else m other

unfoldable pub is_some : {B : Type 0} → Option B → Bool
is_some none = false
is_some (some b) = true

unfoldable pub set_pos : TransactionResourceKey → ℕ → Option Positions → Option Positions
unfolding set_position
set_pos key position none = none
set_pos key position (some m) = some (set_position key position m)

module _ {A : Type 0} where
  unfoldable pub has_key : TransactionResourceKey → Option (TouchedResource A) → Bool
  unfolding same_key
  has_key key none = false
  has_key key (some r) = same_key (resource_key r) key

  unfoldable pub scan_key : TransactionResourceKey → List (TouchedResource A) → Option A
  unfolding same_key
  scan_key key [] = none
  scan_key key (r ∷ rs) =
      let rest = scan_key key rs in if same_key (resource_key r) key then some r.work else rest

  -- the positions of `resources`, the first of which has the number `position`
  unfoldable pub position_all : ℕ → List (TouchedResource A) → Positions → Positions
  unfolding set_position
  position_all position [] m = m
  position_all position (r ∷ rs) m =
      position_all (suc position) rs (set_position (resource_key r) position m)

  unfoldable pub position_first : Option (TouchedResource A) → Positions → Positions
  unfolding set_position
  position_first none m = m
  position_first (some r) m = set_position (resource_key r) 0 m

  -- the first part of `recordBatch`: the map is made when there are eight resources or more
  unfoldable pub start_positions :
      List (TouchedResource A) → TransactionState A → TransactionState A
  unfolding position_all position_first
  start_positions batch tx = elim tx.resource_pos [
    | some m ↦ tx
    | none ↦
        if not (length batch == 0) && leb 8 (1 + length tx.resources + length batch)
        then record tx {
          resource_pos =
              some (position_all 1 tx.resources (position_first tx.resource (λ key. none)));
        }
        else tx
  ]

  unfoldable pub is_recorded : TransactionResourceKey → TransactionState A → Bool
  unfolding has_key scan_key is_some
  is_recorded key tx = elim tx.resource_pos [
    | some m ↦ is_some (m key)
    | none ↦ has_key key tx.resource || is_some (scan_key key tx.resources)
  ]

  -- one round of the loop of `recordBatch`
  unfoldable pub record_resource : TouchedResource A → TransactionState A → TransactionState A
  unfolding is_recorded set_pos
  record_resource r tx = if is_recorded (resource_key r) tx then tx else elim tx.resource [
    | none ↦ record tx {
      resource = some r;
      resource_pos = set_pos (resource_key r) 0 tx.resource_pos;
    }
    | some first ↦ record tx {
      resources = tx.resources ++ r ∷ [];
      resource_pos = set_pos (resource_key r) (length tx.resources + 1) tx.resource_pos;
    }
  ]

  unfoldable pub record_each : List (TouchedResource A) → TransactionState A → TransactionState A
  unfolding record_resource
  record_each [] tx = tx
  record_each (r ∷ rs) tx = record_each rs (record_resource r tx)

  unfoldable pub record_batch : List (TouchedResource A) → TransactionState A → TransactionState A
  unfolding start_positions record_each
  record_batch batch tx = record_each batch (start_positions batch tx)

  -- the resource at a position: 0 is the first one
  unfoldable pub work_at : TransactionState A → Option ℕ → Option A
  work_at tx none = none
  work_at tx (some zero) = bind_option tx.resource λ r. some r.work
  work_at tx (some (suc i)) = bind_option (get_elem? tx.resources i) λ r. some r.work

  unfoldable pub first_work :
      TransactionResourceKey → Option (TouchedResource A) → Option A → Option A
  unfolding same_key
  first_work key none rest = rest
  first_work key (some r) rest = if same_key (resource_key r) key then some r.work else rest

  unfoldable pub work : TransactionState A → TransactionResourceKey → Option A
  unfolding work_at scan_key first_work
  work tx key = elim tx.resource_pos [
    | some m ↦ work_at tx (m key)
    | none ↦ first_work key tx.resource (scan_key key tx.resources)
  ]
