-- ===== src/Engine/Locks/Distinct.antt =====
-- The locks of one kind are all different.
use nestory.Common.{
  ◌≡◌, refl, ◌≢◌, inl, inr, Bool, true, false, ◌||◌, Option, List, [], ◌∷◌, ◌++◌, arith,
  if◌then◌else◌, Bool-cases, Option-cases, All, All-append,
}
use nestory.Common.Bytes.{Bytes}
use nestory.SecondaryIndex.Value.{compare_bytes, bytes-IsOrder, int-IsOrder}
use nestory.SecondaryIndex.Search.{is_equal}
use nestory.Relations.Node.{NodeKey, same_node, same_node_refl, has_node, node_equality}
use nestory.Relations.Cycles.{Owners}
use nestory.Engine.Resources.{TransactionResourceKey, same_key}
use nestory.Engine.Locks.{
  has_resource, has_name, node_resource, add_delete_locks, add_names, add_roots,
  committed_branch_root,
}
use nestory.Engine.Locks.Sorted.{AreDistinct}

pub AreDistinct-last :
    {A : Type 0} (xs : List A) (x : A)
    → AreDistinct xs
    → All (λ y. y ≢ x) xs
    → AreDistinct (xs ++ x ∷ [])
AreDistinct-last [] x d h = (tt, tt)
AreDistinct-last (y ∷ ys) x d h =
    (All-append (λ z. y ≢ z) ys (x ∷ []) d.0 (h.0, tt), AreDistinct-last ys x d.1 h.1)

module _ {A : Type 0} (same : A → A → Bool) (refl_same : (a : A) → same a a ≡ true) where
  differs : (x y : A) → same x y ≡ false → y ≢ x
  differs x y h e = let t = rw (e, refl_same x) at h in ground arith

pub same_key_refl : (a : TransactionResourceKey) → same_key a a ≡ true
unfolding same_key
same_key_refl a = rw (bytes-IsOrder.same a.db_name, int-IsOrder.same a.id) refl

same_name : (a : Bytes) → is_equal (compare_bytes a a) ≡ true
same_name a = rw (bytes-IsOrder.same a) refl

or_second : (a b : Bool) → (a || b) ≡ false → b ≡ false
or_second true b h = ground arith
or_second false b h = h

has_resource-All :
    (x : TransactionResourceKey) (xs : List TransactionResourceKey)
    → has_resource x xs ≡ false
    → All (λ y. y ≢ x) xs
unfolding has_resource
has_resource-All x [] h = tt
has_resource-All x (y ∷ ys) h = elim (Bool-cases (same_key x y)) [
  | inl e ↦ let t = rw e at h in ground arith
  | inr e ↦ (differs same_key same_key_refl x y e, has_resource-All x ys (rw e at h))
]

has_name-All : (x : Bytes) (xs : List Bytes) → has_name x xs ≡ false → All (λ y. y ≢ x) xs
unfolding has_name
has_name-All x [] h = tt
has_name-All x (y ∷ ys) h = elim (Bool-cases (is_equal (compare_bytes x y))) [
  | inl e ↦ let t = rw e at h in ground arith
  | inr e ↦
      (differs (λ a b. is_equal (compare_bytes a b)) same_name x y e, has_name-All x ys (rw e at h))
]

has_node-All : (x : NodeKey) (xs : List NodeKey) → has_node x xs ≡ false → All (λ y. y ≢ x) xs
unfolding has_node
has_node-All x [] h = tt
has_node-All x (y ∷ ys) h = elim (Bool-cases (same_node x y)) [
  | inl e ↦ let t = rw e at h in ground arith
  | inr e ↦ (differs same_node same_node_refl x y e, has_node-All x ys (rw e at h))
]

pub add_delete_locks-AreDistinct :
    (creates deletes : List NodeKey) (locks : List TransactionResourceKey)
    → AreDistinct locks
    → AreDistinct (add_delete_locks creates deletes locks)
unfolding add_delete_locks
add_delete_locks-AreDistinct creates [] locks d = d
add_delete_locks-AreDistinct creates (key ∷ deletes) locks d =
    add_delete_locks-AreDistinct creates deletes _
      (elim (Bool-cases (has_node key creates || has_resource (node_resource key) locks)) [
        | inl skip ↦ rw skip d
        | inr new ↦ rw new (
            AreDistinct-last locks (node_resource key) d
              (has_resource-All (node_resource key) locks (or_second (has_node key creates) _ new)))
      ])

pub add_names-AreDistinct :
    (names old : List Bytes) → AreDistinct old → AreDistinct (add_names names old)
unfolding add_names
add_names-AreDistinct [] old d = d
add_names-AreDistinct (name ∷ names) old d =
    add_names-AreDistinct names _ (elim (Bool-cases (has_name name old)) [
      | inl skip ↦ rw skip d
      | inr new ↦ rw new (AreDistinct-last old name d (has_name-All name old new))
    ])

pub add_roots-AreDistinct :
    (registered : Bytes → Bool) (owners : Option Owners) (resources : List TransactionResourceKey)
    (roots : List NodeKey)
    → AreDistinct roots
    → AreDistinct (add_roots registered owners resources roots)
unfolding add_roots
add_roots-AreDistinct registered owners [] roots d = d
add_roots-AreDistinct registered owners (r ∷ resources) roots d =
    elim (Option-cases (committed_branch_root registered owners r)) [
      | inl e ↦ rw e (add_roots-AreDistinct registered owners resources roots d)
      | inr (root, e) ↦ rw e (
          add_roots-AreDistinct registered owners resources
            (if has_node root roots then roots else roots ++ root ∷ [])
            (elim (Bool-cases (has_node root roots)) [
              | inl skip ↦ rw skip d
              | inr new ↦ rw new (AreDistinct-last roots root d (has_node-All root roots new))
            ]))
    ]
