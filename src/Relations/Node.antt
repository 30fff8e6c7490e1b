-- ===== src/Relations/Node.antt =====
-- relation_runtime.go, relations.go: the nodes of the graph, the declared relations, and sets of
-- nodes as lists. A type is known by its name, under which it is registered.
use nestory.Common.{
  ℕ, suc, ◌≤◌, ◌≡◌, refl, ap, ◌∙◌, ◌⊎◌, inl, inr, Bool, true, false, ◌&&◌, ◌||◌, List, [], ◌∷◌,
  ◌++◌, arith, if◌then◌else◌, Bool-cases, length, In,
}
use nestory.Common.Int.{ℤ}
use nestory.Common.Bytes.{Bytes}
use nestory.Common.Maps.{Equality}
use nestory.SecondaryIndex.Value.{compare_int, compare_bytes, int-IsOrder, bytes-IsOrder}
use nestory.SecondaryIndex.Search.{is_equal, is_equal-eq}

pub record NodeKey : Type 0 where
  pub typ : Bytes
  pub id : ℤ

pub data RelationKind : Type 0 where
  own_relation owned_by_relation borrow_relation option_relation inverse_relation : RelationKind

-- the tests `kind == ownRelation` and so on
abbrev pub is_own : RelationKind → Bool
is_own own_relation = true
is_own _ = false

abbrev pub is_owned_by : RelationKind → Bool
is_owned_by owned_by_relation = true
is_owned_by _ = false

abbrev pub is_borrow : RelationKind → Bool
is_borrow borrow_relation = true
is_borrow _ = false

abbrev pub is_option : RelationKind → Bool
is_option option_relation = true
is_option _ = false

abbrev pub is_inverse : RelationKind → Bool
is_inverse inverse_relation = true
is_inverse _ = false

pub record RelationSpec : Type 0 where
  pub owner : Bytes
  pub field_index : ℕ
  pub field_name : Bytes
  pub target : Bytes
  pub kind : RelationKind
  pub match_field : Bytes
  pub many : Bool

pub record ResolvedRelation : Type 0 where
  pub holder : NodeKey
  pub target : NodeKey
  pub spec : RelationSpec

unfoldable pub same_node : NodeKey → NodeKey → Bool
unfolding compare_int compare_bytes
same_node a b = is_equal (compare_bytes a.typ b.typ) && is_equal (compare_int a.id b.id)

pub or_true : (b : Bool) → (b || true) ≡ true
or_true true = refl
or_true false = refl

both : (a b : Bool) → (a && b) ≡ true → (a ≡ true) × (b ≡ true)
both true b h = (refl, h)
both false b h = ground arith

pub or_cases : (a b : Bool) → (a || b) ≡ true → (a ≡ true) ⊎ (b ≡ true)
or_cases true b h = inl refl
or_cases false b h = inr h

pub same_node-eq : (a b : NodeKey) → same_node a b ≡ true → a ≡ b
unfolding same_node
same_node-eq a b h =
    let (names, ids) =
      both (is_equal (compare_bytes a.typ b.typ)) (is_equal (compare_int a.id b.id)) h in
    ap (λ n. record { typ = n; id = a.id })
      (bytes-IsOrder.equal a.typ b.typ (is_equal-eq (compare_bytes a.typ b.typ) names))
    ∙ ap (λ i. record { typ = b.typ; id = i })
        (int-IsOrder.equal a.id b.id (is_equal-eq (compare_int a.id b.id) ids))

pub same_node_refl : (a : NodeKey) → same_node a a ≡ true
unfolding same_node
same_node_refl a = rw (bytes-IsOrder.same a.typ, int-IsOrder.same a.id) refl

instance abbrev pub node_equality : Equality NodeKey
node_equality = record { same = same_node; same-eq = same_node-eq; same_refl = same_node_refl }

unfoldable pub has_node : NodeKey → List NodeKey → Bool
unfolding same_node
has_node key [] = false
has_node key (x ∷ xs) = same_node key x || has_node key xs

pub has_node-In : (key : NodeKey) (xs : List NodeKey) → has_node key xs ≡ true → In key xs
unfolding has_node
has_node-In key [] h = ground arith
has_node-In key (x ∷ xs) h = elim (Bool-cases (same_node key x)) [
  | inl same ↦ inl (same_node-eq key x same)
  | inr other ↦ inr (has_node-In key xs (rw other at h))
]

pub In-has_node : (key : NodeKey) (xs : List NodeKey) → In key xs → has_node key xs ≡ true
unfolding has_node
In-has_node key [] h = absurd h
In-has_node key (x ∷ xs) (inl e) = rw (← e, same_node_refl key) refl
In-has_node key (x ∷ xs) (inr h) = rw (In-has_node key xs h) (or_true (same_node key x))

pub has_node-append :
    (key : NodeKey) (xs ys : List NodeKey)
    → has_node key (xs ++ ys) ≡ (has_node key xs || has_node key ys)
unfolding has_node
has_node-append key [] ys = refl
has_node-append key (x ∷ xs) ys = rw (has_node-append key xs ys) (ground arith)

-- how many of the nodes `all` are not among `seen`
unfoldable pub count_missing : List NodeKey → List NodeKey → ℕ
count_missing seen [] = 0
count_missing seen (x ∷ xs) =
    let rest = count_missing seen xs in if has_node x seen then rest else suc rest

pub count_missing_le : (seen all : List NodeKey) → count_missing seen all ≤ length all
unfolding count_missing
count_missing_le seen [] = omega arith
count_missing_le seen (x ∷ xs) = ground (arith, count_missing_le seen xs)

-- a new node can be added to the front of the seen ones
count_missing_more :
    (key : NodeKey) (seen all : List NodeKey)
    → count_missing (seen ++ key ∷ []) all ≤ count_missing seen all
unfolding count_missing
count_missing_more key seen [] = omega arith
count_missing_more key seen (x ∷ xs) =
    ground (arith, count_missing_more key seen xs, has_node-append x seen (key ∷ []))

pub count_missing_less :
    (key : NodeKey) (seen all : List NodeKey)
    → has_node key all ≡ true
    → has_node key seen ≡ false
    → suc (count_missing (seen ++ key ∷ []) all) ≤ count_missing seen all
unfolding count_missing has_node
count_missing_less key seen [] h k = ground arith
count_missing_less key seen (x ∷ xs) h k = elim (Bool-cases (same_node key x)) [
  | inl same ↦
      let e = same_node-eq key x same in
      rw (← e, has_node-append key seen (key ∷ []), k, same_node_refl key)
        (omega (arith, count_missing_more key seen xs))
  | inr other ↦
      ground
        (arith, count_missing_less key seen xs (rw other at h) k, has_node-append x seen (key ∷ []))
]
