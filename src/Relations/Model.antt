-- ===== src/Relations/Model.antt =====
-- relation_runtime.go: the relation model that is built from the nodes of the graph, the state of
-- the scan that builds it, and its targets, which are found by a key field.
use nestory.Common.{
  ℕ, ◌≡◌, refl, ap, ◌∙◌, inl, inr, Bool, true, false, ◌&&◌, Option, List, arith, Bool-cases,
}
use nestory.Common.Int.{ℤ}
use nestory.Common.Bytes.{Bytes}
use nestory.Common.Maps.{Equality}
use nestory.SecondaryIndex.Value.{compare_int, compare_bytes, int-IsOrder, bytes-IsOrder}
use nestory.SecondaryIndex.Search.{is_equal, is_equal-eq}
use nestory.Relations.Node.{NodeKey, node_equality, RelationSpec, ResolvedRelation}

-- a key field: a string or an integer
pub data MatchValue : Type 0 where
  text : Bytes → MatchValue
  number : ℤ → MatchValue

-- The fields of a struct that are not zero, by their names.
abbrev pub Fields : Type 0
Fields = List (Bytes × MatchValue)

-- A pointer to an entity: nil, or the fields of the entity.
abbrev pub Pointer : Type 0
Pointer = Option Fields

-- `pointers` has the pointers of each field: one of a field `*T`, those of the slice of `[]*T`.
pub record GraphNode : Type 0 where
  pub key : NodeKey
  pub fields : Fields
  pub pointers : List (List Pointer)

pub record RelationTargetKey : Type 0 where
  pub typ : Bytes
  pub field : Bytes
  pub value : MatchValue

pub record IndexedRelationTarget : Type 0 where
  pub key : NodeKey
  pub duplicate : Bool

pub record MissingRelation : Type 0 where
  pub holder : NodeKey
  pub spec : RelationSpec

pub record UnresolvedRelation : Type 0 where
  pub holder : NodeKey
  pub spec : RelationSpec
  pub lookup : RelationTargetKey

pub record IncomingOwn : Type 0 where
  pub owner : NodeKey
  pub spec : RelationSpec

-- `first` is unset while `count` is 0.
pub record IncomingOwns : Type 0 where
  pub first : Option IncomingOwn
  pub count : ℕ

pub record RelationModel : Type 0 where
  pub nodes : List GraphNode
  pub targets : List (RelationTargetKey × IndexedRelationTarget)
  pub refs : List ResolvedRelation
  pub unresolved : List UnresolvedRelation
  pub missing : List MissingRelation
  pub owners : List (NodeKey × NodeKey)
  pub outgoing : List (NodeKey × List NodeKey)

pub data RelationError : Type 0 where
  schema : RelationError
  not_unique : RelationSpec → RelationError
  listed_twice : NodeKey → RelationSpec → NodeKey → RelationError
  more_than_one_owner : NodeKey → RelationError
  owners_disagree : NodeKey → NodeKey → NodeKey → RelationError
  ownership_cycle : NodeKey → RelationError
  required_missing : MissingRelation → RelationError
  delete_missing : NodeKey → RelationError
  delete_restricted : ResolvedRelation → RelationError

-- the equality of keys, of the strings and of the integers that they compare
unfoldable pub same_value : MatchValue → MatchValue → Bool
unfolding compare_int compare_bytes
same_value (text a) (text b) = is_equal (compare_bytes a b)
same_value (text a) (number b) = false
same_value (number a) (text b) = false
same_value (number a) (number b) = is_equal (compare_int a b)

unfoldable pub same_target : RelationTargetKey → RelationTargetKey → Bool
unfolding same_value compare_bytes
same_target a b =
    is_equal (compare_bytes a.typ b.typ)
    && is_equal (compare_bytes a.field b.field)
    && same_value a.value b.value

pub same_bytes-eq : (a b : Bytes) → is_equal (compare_bytes a b) ≡ true → a ≡ b
same_bytes-eq a b h = bytes-IsOrder.equal a b (is_equal-eq (compare_bytes a b) h)

same_value-eq : (a b : MatchValue) → same_value a b ≡ true → a ≡ b
unfolding same_value
same_value-eq (text a) (text b) h = ap text (same_bytes-eq a b h)
same_value-eq (text a) (number b) h = ground arith
same_value-eq (number a) (text b) h = ground arith
same_value-eq (number a) (number b) h =
    ap number (int-IsOrder.equal a b (is_equal-eq (compare_int a b) h))

same_value_refl : (a : MatchValue) → same_value a a ≡ true
unfolding same_value
same_value_refl (text a) = rw (bytes-IsOrder.same a) refl
same_value_refl (number a) = rw (int-IsOrder.same a) refl

pub same_target-eq : (a b : RelationTargetKey) → same_target a b ≡ true → a ≡ b
unfolding same_target
same_target-eq a b h = elim (Bool-cases (is_equal (compare_bytes a.typ b.typ))) [
  | inl t ↦ elim (Bool-cases (is_equal (compare_bytes a.field b.field))) [
    | inl f ↦
        ap (λ x. record { typ = x; field = a.field; value = a.value }) (same_bytes-eq a.typ b.typ t)
        ∙ ap (λ x. record { typ = b.typ; field = x; value = a.value })
            (same_bytes-eq a.field b.field f)
        ∙ ap (λ x. record { typ = b.typ; field = b.field; value = x })
            (same_value-eq a.value b.value (rw (t, f) at h))
    | inr f ↦ let clash = rw (t, f) at h in ground arith
  ]
  | inr t ↦ let clash = rw t at h in ground arith
]

pub same_target_refl : (a : RelationTargetKey) → same_target a a ≡ true
unfolding same_target
same_target_refl a =
    rw (bytes-IsOrder.same a.typ, bytes-IsOrder.same a.field, same_value_refl a.value) refl

instance abbrev pub target_equality : Equality RelationTargetKey
target_equality = record {
  same = same_target;
  same-eq = same_target-eq;
  same_refl = same_target_refl;
}

abbrev pub same_bytes : Bytes → Bytes → Bool
same_bytes a b = is_equal (compare_bytes a b)

pub same_bytes_refl : (a : Bytes) → same_bytes a a ≡ true
same_bytes_refl a = rw (bytes-IsOrder.same a) refl

instance abbrev pub bytes_equality : Equality Bytes
bytes_equality = record { same = same_bytes; same-eq = same_bytes-eq; same_refl = same_bytes_refl }
