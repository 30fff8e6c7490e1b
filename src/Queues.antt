-- ===== src/Queues.antt =====
-- persist.go, db.go, relation_runtime.go: the ids of a table, the counter that gives new ones, and the
-- queues of the creations and deletions that are not transactional.
pub mod Ids
pub mod Fresh
pub mod Taken
use nestory.Common.{
  ◌+◌, ◌-◌, ◌%◌, ◌^◌, Bool, false, ◌||◌, not, Option, none, some, List, [], ◌∷◌, ◌++◌, map,
  if◌then◌else◌, select,
}
use nestory.Common.Int.{ℤ, pos, negsuc, to_uint64, of_uint64}
use nestory.SecondaryIndex.Value.{compare_int}
use nestory.SecondaryIndex.Search.{is_equal, above}

pub record PersistEntity (A : Type 0) : Type 0 where
  pub id : ℤ
  pub fields : A

-- `live` is what the chunk store has; `res_by_id` has the keys of the map `resById`, and `delete_queue`
-- the ids of the queued resources
pub record IdTable (A : Type 0) : Type 0 where
  pub counter : ℤ
  pub live : List (PersistEntity A)
  pub res_by_id : List ℤ
  pub persist_queue : List (PersistEntity A)
  pub delete_queue : List ℤ

pub data PersistError : Type 0 where
  already_exists : ℤ → PersistError
  not_found : ℤ → PersistError

unfoldable pub same_id : ℤ → ℤ → Bool
unfolding compare_int
same_id a b = is_equal (compare_int a b)

unfoldable pub contains_id : ℤ → List ℤ → Bool
unfolding same_id
contains_id id [] = false
contains_id id (other ∷ ids) = same_id id other || contains_id id ids

-- the increment of a 64-bit `int`
unfoldable pub next_int : ℤ → ℤ
unfolding of_uint64 to_uint64
next_int x = of_uint64 ((to_uint64 x + 1) % 2 ^ 64)

unfoldable pub put_id : ℤ → List ℤ → List ℤ
unfolding contains_id
put_id id ids = if contains_id id ids then ids else ids ++ id ∷ []

unfoldable pub max_id : ℤ → List ℤ → ℤ
unfolding compare_int above
max_id most [] = most
max_id most (id ∷ ids) = max_id (if above (compare_int id most) then id else most) ids

unfoldable pub put_ids : List ℤ → List ℤ → List ℤ
unfolding put_id
put_ids [] ids = ids
put_ids (id ∷ more) ids = put_ids more (put_id id ids)

module _ {A : Type 0} where
  abbrev pub ids_of : List (PersistEntity A) → List ℤ
  ids_of entities = map (λ e. e.id) entities

  unfoldable pub sync_res_by_id : IdTable A → IdTable A
  unfolding put_ids
  sync_res_by_id t = record t { res_by_id = put_ids (ids_of t.live) t.res_by_id }

  unfoldable pub seed_counter : IdTable A → IdTable A
  unfolding max_id
  seed_counter t = record t { counter = max_id (pos 0) (ids_of t.live) }

  -- the last part of `Open`; `live` is what `Register` has loaded
  unfoldable pub open_table : List (PersistEntity A) → IdTable A
  unfolding sync_res_by_id seed_counter
  open_table live = seed_counter (
      sync_res_by_id (record {
        counter = pos 0;
        live = live;
        res_by_id = [];
        persist_queue = [];
        delete_queue = [];
      }))

  unfoldable pub add_entity : PersistEntity A → IdTable A → IdTable A
  unfolding put_id
  add_entity e t = record t { live = t.live ++ e ∷ []; res_by_id = put_id e.id t.res_by_id }

  unfoldable pub queue_create : PersistEntity A → IdTable A → IdTable A
  unfolding same_id contains_id next_int
  queue_create e t =
      if same_id e.id (pos 0)
      then record t {
        counter = next_int t.counter;
        persist_queue = t.persist_queue ++ record e { id = next_int t.counter } ∷ [];
      }
      else if contains_id e.id t.res_by_id || contains_id e.id (ids_of t.persist_queue)
      then t
      else record t { persist_queue = t.persist_queue ++ e ∷ [] }

  unfoldable pub queue_delete : ℤ → IdTable A → IdTable A × Option PersistError
  unfolding contains_id
  queue_delete id t =
      if not (contains_id id t.res_by_id)
      then (t, some (not_found id))
      else if contains_id id t.delete_queue
      then (t, none)
      else (record t { delete_queue = t.delete_queue ++ id ∷ [] }, none)

  unfoldable pub relation_clear_queues : IdTable A → IdTable A
  relation_clear_queues t = record t { persist_queue = []; delete_queue = [] }

  -- an error leaves what was added before it
  unfoldable pub apply_each : List (PersistEntity A) → IdTable A → IdTable A × Option PersistError
  unfolding contains_id add_entity
  apply_each [] t = (t, none)
  apply_each (e ∷ queue) t =
      let rest = apply_each queue (add_entity e t) in
      if contains_id e.id t.res_by_id then (t, some (already_exists e.id)) else rest

  unfoldable pub relation_apply_pending : IdTable A → IdTable A × Option PersistError
  unfolding apply_each
  relation_apply_pending t = apply_each t.persist_queue t

  unfoldable pub relation_prepare_create :
      PersistEntity A → IdTable A → IdTable A × PersistEntity A × Option PersistError
  unfolding same_id contains_id compare_int above next_int
  relation_prepare_create e t =
      if same_id e.id (pos 0)
      then (record t { counter = next_int t.counter }, record e { id = next_int t.counter }, none)
      else if contains_id e.id t.res_by_id
      then (t, e, some (already_exists e.id))
      else (
        record t { counter = if above (compare_int e.id t.counter) then e.id else t.counter },
        e,
        none,
      )

  unfoldable pub relation_delete : List ℤ → IdTable A → IdTable A
  unfolding contains_id
  relation_delete ids t =
      let removed = select (λ e. contains_id e.id ids) t.live in
      record t {
        live = select (λ e. not (contains_id e.id ids)) t.live;
        res_by_id = select (λ id. not (contains_id id (ids_of removed))) t.res_by_id;
      }
