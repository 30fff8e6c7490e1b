-- ===== src/SecondaryIndex/Entries/Order.antt =====
-- secondary_index.go: the comparison of an index is a total preorder.
use nestory.Common.{ℕ, Ordering, ◌≡◌, refl, sym, subst, inl, inr, false, not, List, [], ◌∷◌, arith}
use nestory.SecondaryIndex.Value.{
  FieldType, Entity, compare_int, compare_index_values, IsOrder, int-IsOrder, value-IsOrder,
}
use nestory.SecondaryIndex.Search.{Ordering-cases, first_eq, first, at_least, above}
use nestory.SecondaryIndex.Index.{SecondaryIndexField, compare_fields}

-- the laws of a total order in which two elements may compare equal
pub record IsPreorder {A : Type 0} (cmp : A → A → Ordering) : Type 0 where
  pub same : (a : A) → cmp a a ≡ Ordering.eq
  pub flips : (a b : A) → at_least (cmp a b) ≡ not (above (cmp b a))
  pub le_trans :
      (a b c : A) → above (cmp a b) ≡ false → above (cmp b c) ≡ false → above (cmp a c) ≡ false

module _ {A : Type 0} (cmp : A → A → Ordering) (order : IsOrder cmp) where
  order_flips :
      (a b : A) (m n : Ordering)
      → at_least m ≡ not (above n)
      → at_least (first (cmp a b) m) ≡ not (above (first (cmp b a) n))
  unfolding at_least above
  order_flips a b m n h = elim (Ordering-cases (cmp a b)) [
    | inl e ↦ rw (e, order.turn a b e) refl
    | inr (inl e) ↦ rw (order.equal a b e, order.same b) h
    | inr (inr e) ↦ rw (e, order.turn_back a b e) refl
  ]

  order_trans :
      (a b c : A) (m n o : Ordering)
      → (above m ≡ false → above n ≡ false → above o ≡ false)
      → above (first (cmp a b) m) ≡ false
      → above (first (cmp b c) n) ≡ false
      → above (first (cmp a c) o) ≡ false
  unfolding above
  order_trans a b c m n o h k l = elim (Ordering-cases (cmp a b)) [
    | inr (inl e) ↦ elim (Ordering-cases (cmp b c)) [
      | inl f ↦ rw (order.equal a b e, f) refl
      | inr (inl f) ↦
          rw (order.equal a b e, f)
            (h (subst (λ r. above (first r m) ≡ false) e k)
              (subst (λ r. above (first r n) ≡ false) f l))
      | inr (inr f) ↦ ground (arith, f, l)
    ]
    | inl e ↦ elim (Ordering-cases (cmp b c)) [
      | inl f ↦ rw (order.less a b c e f) refl
      | inr (inl f) ↦ rw (← order.equal b c f, e) refl
      | inr (inr f) ↦ ground (arith, f, l)
    ]
    | inr (inr e) ↦ ground (arith, e, k)
  ]

module _ {layout : ℕ → FieldType} where
  fields_same :
      (fs : List SecondaryIndexField) (a : Entity layout) → compare_fields fs a a ≡ Ordering.eq
  unfolding compare_fields
  fields_same [] a = int-IsOrder.same a.id
  fields_same (f ∷ fs) a =
      rw ((value-IsOrder (layout f.index).kind).same (a.field f.index)) (fields_same fs a)

  fields_flips :
      (fs : List SecondaryIndexField) (a b : Entity layout)
      → at_least (compare_fields fs a b) ≡ not (above (compare_fields fs b a))
  unfolding compare_fields at_least above
  fields_flips [] a b = elim (Ordering-cases (compare_int a.id b.id)) [
    | inl e ↦ rw (e, int-IsOrder.turn a.id b.id e) refl
    | inr (inl e) ↦ rw (int-IsOrder.equal a.id b.id e, int-IsOrder.same b.id) refl
    | inr (inr e) ↦ rw (e, int-IsOrder.turn_back a.id b.id e) refl
  ]
  fields_flips (f ∷ fs) a b =
      order_flips (compare_index_values (layout f.index).kind) (value-IsOrder (layout f.index).kind)
        (a.field f.index) (b.field f.index) (compare_fields fs a b) (compare_fields fs b a)
        (fields_flips fs a b)

  fields_trans :
      (fs : List SecondaryIndexField) (a b c : Entity layout)
      → above (compare_fields fs a b) ≡ false
      → above (compare_fields fs b c) ≡ false
      → above (compare_fields fs a c) ≡ false
  unfolding compare_fields above
  fields_trans [] a b c h k =
      subst (λ o. above o ≡ false) (first_eq (compare_int a.id c.id))
        (order_trans compare_int int-IsOrder a.id b.id c.id Ordering.eq Ordering.eq Ordering.eq
          (λ x y. refl) (subst (λ o. above o ≡ false) (sym (first_eq (compare_int a.id b.id))) h)
          (subst (λ o. above o ≡ false) (sym (first_eq (compare_int b.id c.id))) k))
  fields_trans (f ∷ fs) a b c h k =
      order_trans (compare_index_values (layout f.index).kind) (value-IsOrder (layout f.index).kind)
        (a.field f.index) (b.field f.index) (c.field f.index) (compare_fields fs a b)
        (compare_fields fs b c) (compare_fields fs a c) (fields_trans fs a b c) h k

  pub fields-IsPreorder :
      (fs : List SecondaryIndexField) → IsPreorder {A = Entity layout} (compare_fields fs)
  fields-IsPreorder fs = record {
    same = fields_same fs;
    flips = fields_flips fs;
    le_trans = fields_trans fs;
  }
