-- ===== src/Engine/Locks/Ordered.antt =====
-- The locks of a commit strictly increase in the order of all locks.
use nestory.Common.{
  ap, ◌∙◌, subst, append_assoc, subst, ℕ, suc, ◌<◌, compare, Ordering, ◌≡◌, refl, Bool, Option,
  List, [], ◌∷◌, ◌++◌, map, arith, All, All-append, All-map,
}
use nestory.Common.Bytes.{Bytes}
use nestory.SecondaryIndex.Value.{compare_bytes, bytes-IsOrder}
use nestory.SecondaryIndex.Search.{first}
use nestory.Relations.Node.{NodeKey, node_equality}
use nestory.Relations.Cycles.{Owners}
use nestory.Engine.Resources.{TransactionResourceKey, TouchedResource, resource_key}
use nestory.Engine.Locks.{
  compare_resource, compare_node, transaction_resource_locks, indexed_names,
  transaction_structural_db_names, touched_branches, GraphAccess, graph_access_none,
  graph_access_read, graph_access_write, graph_request, structure_lock, branch_lock, resource_lock,
  LockRequest, alone, later_locks,
}
use nestory.Engine.Locks.Sorted.{IsIncreasing, AreDistinct, sort_by-IsIncreasing}
use nestory.Engine.Locks.Keys.{resource-IsOrder, node-IsOrder, lock_rank, lock_key, compare_lock}
use nestory.Engine.Locks.Distinct.{
  add_delete_locks-AreDistinct, add_names-AreDistinct, add_roots-AreDistinct,
}

module _ {A : Type 0} (cmp : A → A → Ordering) where
  IsIncreasing-append :
      (xs ys : List A)
      → IsIncreasing cmp xs
      → IsIncreasing cmp ys
      → All (λ x. All (λ y. cmp x y ≡ Ordering.lt) ys) xs
      → IsIncreasing cmp (xs ++ ys)
  IsIncreasing-append [] ys hx hy h = hy
  IsIncreasing-append (x ∷ xs) ys hx hy h = (
    All-append (λ z. cmp x z ≡ Ordering.lt) xs ys hx.0 h.0,
    IsIncreasing-append xs ys hx.1 hy h.1,
  )

  module _ {B : Type 0} (cmp' : B → B → Ordering) (f : B → A)
      (grows : (a b : B) → cmp' a b ≡ Ordering.lt → cmp (f a) (f b) ≡ Ordering.lt) where
    grows-All :
        (x : B) (ys : List B)
        → All (λ y. cmp' x y ≡ Ordering.lt) ys
        → All (λ y. cmp (f x) y ≡ Ordering.lt) (map f ys)
    grows-All x [] h = tt
    grows-All x (y ∷ ys) h = (grows x y h.0, grows-All x ys h.1)

    map-IsIncreasing : (xs : List B) → IsIncreasing cmp' xs → IsIncreasing cmp (map f xs)
    map-IsIncreasing [] h = tt
    map-IsIncreasing (x ∷ xs) h = (grows-All x xs h.0, map-IsIncreasing xs h.1)

map-All :
    {A B : Type 0} (P : A → Type 0) (f : B → A) (xs : List B)
    → ((x : B) → P (f x))
    → All P (map f xs)
map-All P f [] h = tt
map-All P f (x ∷ xs) h = (h x, map-All P f xs h)

-- the order of the requests is that of their locks
abbrev pub compare_request : LockRequest → LockRequest → Ordering
compare_request a b = compare_lock a.lock b.lock

-- all requests of the list are for locks of this rank
abbrev HasRank : ℕ → LockRequest → Type 0
HasRank n r = lock_rank r.lock ≡ n

rank_less :
    (m n : ℕ) (a b : LockRequest)
    → m < n
    → HasRank m a
    → HasRank n b
    → compare_request a b ≡ Ordering.lt
unfolding compare_lock
rank_less m n a b lt e f = rw (e, f) (first_lt (compare m n) _ (ground arith))
  where
    first_lt : (o rest : Ordering) → o ≡ Ordering.lt → first o rest ≡ Ordering.lt
    first_lt o rest h = rw h refl

-- requests in order, all of a rank below `n`
abbrev UpTo : ℕ → List LockRequest → Type 0
UpTo n xs = IsIncreasing compare_request xs × All (λ x. lock_rank x.lock < n) xs

-- requests in order, all of the rank `n`
abbrev OfRank : ℕ → List LockRequest → Type 0
OfRank n xs = IsIncreasing compare_request xs × All (HasRank n) xs

below-All :
    (n : ℕ) (xs ys : List LockRequest)
    → All (λ x. lock_rank x.lock < n) xs
    → All (HasRank n) ys
    → All (λ x. All (λ y. compare_request x y ≡ Ordering.lt) ys) xs
below-All n [] ys hx hy = tt
below-All n (x ∷ xs) ys hx hy = (
  All-map ys (λ y k. rank_less (lock_rank x.lock) n x y hx.0 refl k) hy,
  below-All n xs ys hx.1 hy,
)

UpTo-append : (n : ℕ) (xs ys : List LockRequest) → UpTo n xs → OfRank n ys → UpTo (suc n) (xs ++ ys)
UpTo-append n xs ys (ix, hx) (iy, hy) = (
  IsIncreasing-append compare_request xs ys ix iy (below-All n xs ys hx hy),
  All-append (λ x. lock_rank x.lock < suc n) xs ys (All-map xs (λ x k. omega arith) hx)
      (All-map ys (λ y k. omega (arith, k)) hy),
)

graph_request-UpTo : (access : GraphAccess) → UpTo 1 (graph_request access)
unfolding graph_request lock_rank
graph_request-UpTo graph_access_none = (tt, tt)
graph_request-UpTo graph_access_read = ((tt, tt), (omega arith, tt))
graph_request-UpTo graph_access_write = ((tt, tt), (omega arith, tt))

structures-OfRank :
    (names : List Bytes)
    → IsIncreasing compare_bytes names
    → OfRank 1 (map (λ name. alone (structure_lock name)) names)
unfolding compare_lock compare_node lock_rank lock_key
structures-OfRank names h = (
  map-IsIncreasing compare_request compare_bytes (λ name. alone (structure_lock name))
      (λ a b k. rw k refl) names h,
  map-All (HasRank 1) (λ name. alone (structure_lock name)) names (λ name. refl),
)

branches-OfRank :
    (roots : List NodeKey)
    → IsIncreasing compare_node roots
    → OfRank 2 (map (λ root. alone (branch_lock root)) roots)
unfolding compare_lock lock_rank lock_key
branches-OfRank roots h = (
  map-IsIncreasing compare_request compare_node (λ root. alone (branch_lock root)) (λ a b k. k)
      roots h,
  map-All (HasRank 2) (λ root. alone (branch_lock root)) roots (λ root. refl),
)

resources-OfRank :
    (keys : List TransactionResourceKey)
    → IsIncreasing compare_resource keys
    → OfRank 3 (map (λ key. alone (resource_lock key)) keys)
unfolding compare_lock compare_node compare_resource lock_rank lock_key
resources-OfRank keys h = (
  map-IsIncreasing compare_request compare_resource (λ key. alone (resource_lock key)) (λ a b k. k)
      keys h,
  map-All (HasRank 3) (λ key. alone (resource_lock key)) keys (λ key. refl),
)

appended : (a b c d : List LockRequest) → a ++ b ++ c ++ d ≡ a ++ (b ++ c ++ d)
appended a b c d = ap (λ l. l ++ d) (append_assoc a b c) ∙ append_assoc a (b ++ c) d

-- the lock of the graph comes before that of each row
pub graph_request-first :
    (access : GraphAccess)
    → All
        (λ h.
          (key : TransactionResourceKey)
          → compare_request h (alone (resource_lock key)) ≡ Ordering.lt)
        (graph_request access)
unfolding graph_request compare_lock lock_rank
graph_request-first graph_access_none = tt
graph_request-first graph_access_read = (λ key. refl, tt)
graph_request-first graph_access_write = (λ key. refl, tt)

module _ {A : Type 0} (has_secondary_indexes registered : Bytes → Bool) (participant : Bytes → Bool)
    (owners : Option Owners) where
  -- the locks that a commit keeps to its end, in the order of all locks
  pub later_locks-IsIncreasing :
      (access : GraphAccess) (resources : List (TouchedResource A)) (creates deletes : List NodeKey)
      → AreDistinct (map resource_key resources)
      → IsIncreasing compare_request (
          graph_request access
          ++ later_locks has_secondary_indexes participant registered owners resources creates
              deletes)
  unfolding later_locks transaction_structural_db_names touched_branches transaction_resource_locks
  later_locks-IsIncreasing access resources creates deletes d =
      let locked = transaction_resource_locks resources creates deletes in
      let names = structures-OfRank _ (
        sort_by-IsIncreasing compare_bytes bytes-IsOrder _ (
          add_names-AreDistinct (map (λ key. key.typ) deletes) _ (
            add_names-AreDistinct (map (λ key. key.typ) creates) _
              (add_names-AreDistinct (indexed_names has_secondary_indexes resources) [] tt)))) in
      let roots = branches-OfRank _ (
        sort_by-IsIncreasing compare_node node-IsOrder _
          (add_roots-AreDistinct registered owners locked [] tt)) in
      let rows = resources-OfRank _ (
        sort_by-IsIncreasing compare_resource resource-IsOrder _
          (add_delete_locks-AreDistinct creates deletes (map resource_key resources) d)) in
      subst (IsIncreasing compare_request) (appended (graph_request access) _ _ _)
        (UpTo-append 3 _ _
          (UpTo-append 2 _ _ (UpTo-append 1 _ _ (graph_request-UpTo access) names) roots) rows).0
