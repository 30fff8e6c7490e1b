-- ===== src/Engine/Locks/Keys.antt =====
-- The orders of the locks: by name and id, and all locks by their kind first.
use nestory.Common.{ℕ, compare, Ordering, ◌≡◌, refl, ap, ◌∙◌, inl, inr, [], arith}
use nestory.Common.Int.{pos}
use nestory.SecondaryIndex.Value.{
  compare_int, compare_bytes, IsOrder, int-IsOrder, bytes-IsOrder, nat-IsOrder,
}
use nestory.SecondaryIndex.Search.{first, Ordering-cases}
use nestory.Relations.Node.{NodeKey}
use nestory.Engine.Resources.{TransactionResourceKey}
use nestory.Engine.Locks.{
  compare_resource, compare_node, Lock, graph_lock, structure_lock, branch_lock, resource_lock,
}

-- the laws of an order by a first key and then by a second
module _ {A B C : Type 0} (cmp : A → A → Ordering) (order : IsOrder cmp) (cmp' : B → B → Ordering)
    (order' : IsOrder cmp') (key : C → A) (rest : C → B)
    (determined : (a b : C) → key a ≡ key b → rest a ≡ rest b → a ≡ b) where
  abbrev both_keys : C → C → Ordering
  both_keys a b = first (cmp (key a) (key b)) (cmp' (rest a) (rest b))

  keys_equal : (a b : C) → both_keys a b ≡ Ordering.eq → a ≡ b
  keys_equal a b h = elim (Ordering-cases (cmp (key a) (key b))) [
    | inl e ↦ let clash = rw e at h in ground arith
    | inr (inl e) ↦
        determined a b (order.equal (key a) (key b) e) (order'.equal (rest a) (rest b) (rw e at h))
    | inr (inr e) ↦ let clash = rw e at h in ground arith
  ]

  keys_less :
      (a b c : C)
      → both_keys a b ≡ Ordering.lt
      → both_keys b c ≡ Ordering.lt
      → both_keys a c ≡ Ordering.lt
  keys_less a b c h k = elim (Ordering-cases (cmp (key a) (key b))) [
    | inl e ↦ elim (Ordering-cases (cmp (key b) (key c))) [
      | inl f ↦ rw (order.less (key a) (key b) (key c) e f) refl
      | inr (inl f) ↦ rw (← order.equal (key b) (key c) f, e) refl
      | inr (inr f) ↦ let clash = rw f at k in ground arith
    ]
    | inr (inl e) ↦ elim (Ordering-cases (cmp (key b) (key c))) [
      | inl f ↦ rw (order.equal (key a) (key b) e, f) refl
      | inr (inl f) ↦
          rw (order.equal (key a) (key b) e, f)
            (order'.less (rest a) (rest b) (rest c) (rw e at h) (rw f at k))
      | inr (inr f) ↦ let clash = rw f at k in ground arith
    ]
    | inr (inr e) ↦ let clash = rw e at h in ground arith
  ]

  keys_turn : (a b : C) → both_keys a b ≡ Ordering.lt → both_keys b a ≡ Ordering.gt
  keys_turn a b h = elim (Ordering-cases (cmp (key a) (key b))) [
    | inl e ↦ rw (order.turn (key a) (key b) e) refl
    | inr (inl e) ↦
        rw (order.equal (key a) (key b) e, order.same (key b))
          (order'.turn (rest a) (rest b) (rw e at h))
    | inr (inr e) ↦ let clash = rw e at h in ground arith
  ]

  keys_turn_back : (a b : C) → both_keys a b ≡ Ordering.gt → both_keys b a ≡ Ordering.lt
  keys_turn_back a b h = elim (Ordering-cases (cmp (key a) (key b))) [
    | inl e ↦ let clash = rw e at h in ground arith
    | inr (inl e) ↦
        rw (order.equal (key a) (key b) e, order.same (key b))
          (order'.turn_back (rest a) (rest b) (rw e at h))
    | inr (inr e) ↦ rw (order.turn_back (key a) (key b) e) refl
  ]

  both_keys-IsOrder : IsOrder both_keys
  both_keys-IsOrder = record {
    equal = keys_equal;
    same = λ a. rw (order.same (key a)) (order'.same (rest a));
    turn = keys_turn;
    turn_back = keys_turn_back;
    less = keys_less;
  }

same_resource_key : (a b : TransactionResourceKey) → a.db_name ≡ b.db_name → a.id ≡ b.id → a ≡ b
same_resource_key a b e f =
    ap (λ n. record { db_name = n; id = a.id }) e
    ∙ ap (λ i. record { db_name = b.db_name; id = i }) f

same_node_key : (a b : NodeKey) → a.typ ≡ b.typ → a.id ≡ b.id → a ≡ b
same_node_key a b e f =
    ap (λ n. record { typ = n; id = a.id }) e ∙ ap (λ i. record { typ = b.typ; id = i }) f

pub resource-IsOrder : IsOrder compare_resource
unfolding compare_resource
resource-IsOrder =
    both_keys-IsOrder compare_bytes bytes-IsOrder compare_int int-IsOrder (λ k. k.db_name)
      (λ k. k.id) same_resource_key

pub node-IsOrder : IsOrder compare_node
unfolding compare_node
node-IsOrder =
    both_keys-IsOrder compare_bytes bytes-IsOrder compare_int int-IsOrder (λ k. k.typ) (λ k. k.id)
      same_node_key

unfoldable pub lock_rank : Lock → ℕ
lock_rank graph_lock = 0
lock_rank (structure_lock name) = 1
lock_rank (branch_lock root) = 2
lock_rank (resource_lock key) = 3

unfoldable pub lock_key : Lock → NodeKey
lock_key graph_lock = record { typ = []; id = pos 0 }
lock_key (structure_lock name) = record { typ = name; id = pos 0 }
lock_key (branch_lock root) = root
lock_key (resource_lock key) = record { typ = key.db_name; id = key.id }

-- the graph, the structures by name, the branches and then the resources, each by name and id
unfoldable pub compare_lock : Lock → Lock → Ordering
unfolding lock_rank lock_key compare_node
compare_lock a b =
    first (compare (lock_rank a) (lock_rank b)) (compare_node (lock_key a) (lock_key b))

same_lock : (a b : Lock) → lock_rank a ≡ lock_rank b → lock_key a ≡ lock_key b → a ≡ b
unfolding lock_rank lock_key
same_lock graph_lock graph_lock e f = refl
same_lock graph_lock (structure_lock name) e f = ground arith
same_lock graph_lock (branch_lock root) e f = ground arith
same_lock graph_lock (resource_lock key) e f = ground arith
same_lock (structure_lock name) graph_lock e f = ground arith
same_lock (structure_lock name) (structure_lock other) e f = ap structure_lock (ap (λ k. k.typ) f)
same_lock (structure_lock name) (branch_lock root) e f = ground arith
same_lock (structure_lock name) (resource_lock key) e f = ground arith
same_lock (branch_lock root) graph_lock e f = ground arith
same_lock (branch_lock root) (structure_lock name) e f = ground arith
same_lock (branch_lock root) (branch_lock other) e f = ap branch_lock f
same_lock (branch_lock root) (resource_lock key) e f = ground arith
same_lock (resource_lock key) graph_lock e f = ground arith
same_lock (resource_lock key) (structure_lock name) e f = ground arith
same_lock (resource_lock key) (branch_lock root) e f = ground arith
same_lock (resource_lock key) (resource_lock other) e f =
    ap resource_lock (same_resource_key key other (ap (λ k. k.typ) f) (ap (λ k. k.id) f))

pub lock-IsOrder : IsOrder compare_lock
unfolding compare_lock
lock-IsOrder =
    both_keys-IsOrder compare nat-IsOrder compare_node node-IsOrder lock_rank lock_key same_lock
