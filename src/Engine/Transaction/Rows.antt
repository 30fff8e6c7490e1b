-- ===== src/Engine/Transaction/Rows.antt =====
-- What the application of a commit does to the row of one node.
use nestory.Common.{
  ◌+◌, ◌≡◌, refl, sym, ap, ◌∙◌, subst, ◌≢◌, inl, inr, Bool, true, false, Option, none, some, List,
  [], ◌∷◌, map, if◌then◌else◌, Bool-cases, Option-cases, All,
}
use nestory.Common.Bytes.{Bytes}
use nestory.Common.Int.{ℤ}
use nestory.Common.Maps.{find}
use nestory.SecondaryIndex.Value.{compare_int, compare_bytes, int-IsOrder, bytes-IsOrder}
use nestory.SecondaryIndex.Search.{is_equal, is_equal-eq}
use nestory.Relations.Node.{
  NodeKey, same_node, same_node-eq, same_node_refl, has_node, node_equality,
}
use nestory.Engine.Resources.{TouchedResource}
use nestory.Engine.Locks.Sorted.{AreDistinct}
use nestory.Engine.Single.{Row, Table, Tables, set_table, set_row, apply_write}
use nestory.Engine.Transaction.{keys, apply_writes, add_row, apply_creates, apply_deletes}

same_node_turn : (a b : NodeKey) → same_node b a ≡ same_node a b
same_node_turn a b = elim (Bool-cases (same_node a b)) [
  | inl e ↦ rw (same_node-eq a b e) refl
  | inr e ↦ elim (Bool-cases (same_node b a)) [
    | inl f ↦ rw (same_node-eq b a f) refl
    | inr f ↦ rw (e, f) refl
  ]
]

abbrev pub node_of : {A : Type 0} → TouchedResource A → NodeKey
node_of r = record { typ = r.db_name; id = r.id }

module _ {A : Type 0} where
  -- the committed row of a node
  abbrev pub row_of : Tables A → NodeKey → Option (Row A)
  row_of tables key = (tables key.typ).rows key.id

  -- the row with a new entity and the next version, where there is a row
  abbrev pub next_row : A → Option (Row A) → Option (Row A)
  next_row work none = none
  next_row work (some r) = some (record { item = work; version = r.version + 1; marked = true })

  if_rows :
      (b : Bool) (t u : Table A) (id : ℤ)
      → (if b then t else u).rows id ≡ (if b then t.rows id else u.rows id)
  if_rows true t u id = refl
  if_rows false t u id = refl

  row_of-set_table :
      (name : Bytes) (t : Table A) (tables : Tables A) (key : NodeKey)
      → row_of (set_table name t tables) key
        ≡ (if is_equal (compare_bytes name key.typ) then t.rows key.id else row_of tables key)
  unfolding set_table
  row_of-set_table name t tables key =
      if_rows (is_equal (compare_bytes name key.typ)) t (tables key.typ) key.id

  apply_write-row :
      (id other : ℤ) (work : A) (t : Table A)
      → (apply_write id work t).rows other
        ≡ (if is_equal (compare_int id other) then next_row work (t.rows other) else t.rows other)
  unfolding apply_write set_row
  apply_write-row id other work t = elim (Bool-cases (is_equal (compare_int id other))) [
    | inl same ↦
        let e = int-IsOrder.equal id other (is_equal-eq (compare_int id other) same) in
        elim (Option-cases (t.rows id)) [
          | inl absent ↦ rw (same, ← e) (rw (apply_write, absent) absent)
          | inr (r, present) ↦
              rw (same, ← e) (rw (apply_write, present) (rw (set_row, int-IsOrder.same id) refl))
        ]
    | inr differs ↦ elim (Option-cases (t.rows id)) [
      | inl absent ↦ rw (differs, apply_write, absent) refl
      | inr (r, present) ↦ rw (differs, apply_write, present) (rw (set_row, differs) refl)
    ]
  ]

  -- one write, where the log of the table may be another one
  pub write-row :
      (r : TouchedResource A) (t : Table A) (tables : Tables A) (key : NodeKey)
      → t.rows ≡ (tables r.db_name).rows
      → row_of (set_table r.db_name (apply_write r.id r.work t) tables) key ≡ (
          if same_node (node_of r) key
          then next_row r.work (row_of tables key)
          else row_of tables key)
  unfolding same_node
  write-row r t tables key h = elim (Bool-cases (is_equal (compare_bytes r.db_name key.typ))) [
    | inl same ↦
        let e =
          bytes-IsOrder.equal r.db_name key.typ
            (is_equal-eq (compare_bytes r.db_name key.typ) same) in
        row_of-set_table r.db_name _ tables key
        ∙ rw (same, ← e)
            (apply_write-row r.id key.id r.work t
              ∙ ap
                  (λ (rows : ℤ → Option (Row A)).
                    if is_equal (compare_int r.id key.id)
                    then next_row r.work (rows key.id)
                    else rows key.id)
                  h)
    | inr other ↦ row_of-set_table r.db_name _ tables key ∙ rw other refl
  ]

  -- the work copy of the node among the resources
  unfoldable pub written_work : NodeKey → List (TouchedResource A) → Option A
  unfolding same_node
  written_work key [] = none
  written_work key (r ∷ resources) =
      let rest = written_work key resources in
      if same_node (node_of r) key then some r.work else rest

  -- the row of before, with the work copy if there is one
  abbrev pub written_row : Option A → Option (Row A) → Option (Row A)
  written_row none row = row
  written_row (some work) row = next_row work row

  not_written :
      (key : NodeKey) (resources : List (TouchedResource A))
      → All (λ k. key ≢ k) (map node_of resources)
      → written_work key resources ≡ none
  unfolding written_work
  not_written key [] h = refl
  not_written key (r ∷ resources) h = elim (Bool-cases (same_node (node_of r) key)) [
    | inl same ↦ absurd (h.0 (sym (same_node-eq (node_of r) key same)))
    | inr other ↦ rw other (not_written key resources h.1)
  ]

  pub apply_writes-row :
      (resources : List (TouchedResource A)) (tables : Tables A) (key : NodeKey)
      → AreDistinct (map node_of resources)
      → row_of (apply_writes resources tables) key
        ≡ written_row (written_work key resources) (row_of tables key)
  unfolding apply_writes written_work
  apply_writes-row [] tables key d = refl
  apply_writes-row (r ∷ resources) tables key d =
      apply_writes-row resources _ key d.1
      ∙ ap (written_row (written_work key resources))
          (write-row r (tables r.db_name) tables key refl)
      ∙ elim (Bool-cases (same_node (node_of r) key)) [
        | inl same ↦
            let e = same_node-eq (node_of r) key same in
            rw
              (
                same,
                not_written key resources
                    (subst (λ k. All (λ j. k ≢ j) (map node_of resources)) e d.0),
              )
              refl
        | inr other ↦ rw other refl
      ]

  abbrev pub new_row : A → Row A
  new_row work = record { item = work; version = 0; marked = true }

  create-row :
      (node : NodeKey) (work : A) (tables : Tables A) (key : NodeKey)
      → row_of (set_table node.typ (add_row node.id work (tables node.typ)) tables) key
        ≡ (if same_node node key then some (new_row work) else row_of tables key)
  unfolding same_node add_row set_row
  create-row node work tables key = elim (Bool-cases (is_equal (compare_bytes node.typ key.typ))) [
    | inl same ↦
        let e =
          bytes-IsOrder.equal node.typ key.typ
            (is_equal-eq (compare_bytes node.typ key.typ) same) in
        row_of-set_table node.typ _ tables key ∙ rw (same, e) refl
    | inr other ↦ row_of-set_table node.typ _ tables key ∙ rw other refl
  ]

  -- the new row, if there is one
  abbrev pub created_row : Option A → Option (Row A) → Option (Row A)
  created_row none row = row
  created_row (some work) row = some (new_row work)

  not_created :
      (key : NodeKey) (creates : List (NodeKey × A))
      → All (λ k. key ≢ k) (keys creates)
      → find key creates ≡ none
  unfolding find
  not_created key [] h = refl
  not_created key ((j, work) ∷ creates) h = elim (Bool-cases (same_node key j)) [
    | inl same ↦ absurd (h.0 (same_node-eq key j same))
    | inr other ↦ rw other (not_created key creates h.1)
  ]

  pub apply_creates-row :
      (creates : List (NodeKey × A)) (tables : Tables A) (key : NodeKey)
      → AreDistinct (keys creates)
      → row_of (apply_creates creates tables) key
        ≡ created_row (find key creates) (row_of tables key)
  unfolding apply_creates find
  apply_creates-row [] tables key d = refl
  apply_creates-row ((node, work) ∷ creates) tables key d =
      apply_creates-row creates _ key d.1
      ∙ ap (created_row (find key creates)) (create-row node work tables key)
      ∙ elim (Bool-cases (same_node node key)) [
        | inl same ↦
            let e = same_node-eq node key same in
            rw (same, ← e, same_node_refl node, not_created node creates d.0) refl
        | inr other ↦ rw (other, same_node_turn node key ∙ other) refl
      ]

  pub apply_deletes-row :
      (deleted : List NodeKey) (tables : Tables A) (key : NodeKey)
      → row_of (apply_deletes deleted tables) key
        ≡ (if has_node key deleted then none else row_of tables key)
  unfolding apply_deletes
  apply_deletes-row deleted tables key = refl
