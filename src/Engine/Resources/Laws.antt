-- ===== src/Engine/Resources/Laws.antt =====
-- engine.go, `recordBatch` and `work`: with the map of positions and without it, a transaction finds
-- the copy that was recorded first.
use nestory.Common.{
  ℕ, suc, ◌+◌, ◌≡◌, refl, ap, ◌∙◌, subst, inl, inr, Bool, true, false, ◌&&◌, Option, none, some,
  List, [], ◌∷◌, ◌++◌, append_assoc, arith, if◌then◌else◌, Bool-cases, length, get_elem?,
  length-append, bind_option,
}
use nestory.SecondaryIndex.Value.{compare_int, compare_bytes, int-IsOrder, bytes-IsOrder}
use nestory.SecondaryIndex.Search.{is_equal-eq, is_equal}
use nestory.Engine.Resources.{
  TransactionResourceKey, TouchedResource, same_key, resource_key, Positions, TransactionState,
  set_position, scan_key, is_some,
}

both : (a b : Bool) → (a && b) ≡ true → (a ≡ true) × (b ≡ true)
both true b h = (refl, h)
both false b h = ground arith

pub same_key-eq : (a b : TransactionResourceKey) → same_key a b ≡ true → a ≡ b
unfolding same_key
same_key-eq a b h =
    let (names, ids) =
      both (is_equal (compare_bytes a.db_name b.db_name)) (is_equal (compare_int a.id b.id)) h in
    ap (λ n. record { db_name = n; id = a.id })
      (bytes-IsOrder.equal a.db_name b.db_name
        (is_equal-eq (compare_bytes a.db_name b.db_name) names))
    ∙ ap (λ i. record { db_name = b.db_name; id = i })
        (int-IsOrder.equal a.id b.id (is_equal-eq (compare_int a.id b.id) ids))

unfoldable pub or_else : {B : Type 0} → Option B → Option B → Option B
or_else none b = b
or_else (some a) b = some a

or_else-none : {B : Type 0} (o : Option B) → o ≡ or_else o none
unfolding or_else
or_else-none none = refl
or_else-none (some a) = refl

module _ {A : Type 0} where
  -- the first resource and the others
  abbrev pub join : Option (TouchedResource A) → List (TouchedResource A) → List (TouchedResource A)
  join none rs = rs
  join (some r) rs = r ∷ rs

  abbrev pub touched : TransactionState A → List (TouchedResource A)
  touched tx = join tx.resource tx.resources

  -- the position of a key, counted from `i`
  abbrev pub find : ℕ → List (TouchedResource A) → TransactionResourceKey → Option ℕ
  find i [] key = none
  find i (r ∷ rs) key =
      let rest = find (suc i) rs key in if same_key (resource_key r) key then some i else rest

  -- the keys of `rs` differ from each other and from those of `l`
  abbrev pub Distinct : List (TouchedResource A) → List (TouchedResource A) → Type 0
  Distinct l [] = Unit
  Distinct l (r ∷ rs) = (scan_key (resource_key r) l ≡ none) × Distinct (l ++ r ∷ []) rs

  abbrev pub Indexes : Option Positions → List (TouchedResource A) → Type 0
  Indexes none l = Unit
  Indexes (some m) l = (key : TransactionResourceKey) → m key ≡ find 0 l key

  -- a state that `recordBatch` builds: there are others only behind a first one, the keys differ, and
  -- the map, where it is set, has the position of every key
  pub record IsValid (tx : TransactionState A) : Type 0 where
    pub shape : tx.resource ≡ none → tx.resources ≡ []
    pub distinct : Distinct [] (touched tx)
    pub indexed : Indexes tx.resource_pos (touched tx)

  unfoldable pub nth_work : List (TouchedResource A) → Option ℕ → Option A
  nth_work l none = none
  nth_work l (some i) = bind_option (get_elem? l i) λ r. some r.work

  get_elem?-middle :
      (before : List (TouchedResource A)) (r : TouchedResource A) (l : List (TouchedResource A))
      → get_elem? (before ++ r ∷ l) (length before) ≡ some r
  get_elem?-middle [] r l = refl
  get_elem?-middle (x ∷ before) r l = get_elem?-middle before r l

  pub find-scan_from :
      (before l : List (TouchedResource A)) (key : TransactionResourceKey)
      → nth_work (before ++ l) (find (length before) l key) ≡ scan_key key l
  unfolding nth_work scan_key
  find-scan_from before [] key = refl
  find-scan_from before (r ∷ l) key = elim (Bool-cases (same_key (resource_key r) key)) [
    | inl same ↦ rw (same, get_elem?-middle before r l) refl
    | inr other ↦ rw other (
        subst (λ xs. nth_work xs (find (suc (length before)) l key) ≡ scan_key key l)
          (append_assoc before (r ∷ []) l)
          (subst (λ n. nth_work ((before ++ r ∷ []) ++ l) (find n l key) ≡ scan_key key l)
            (omega (arith, length-append {0} before (r ∷ [])))
            (find-scan_from (before ++ r ∷ []) l key)))
  ]

  pub find_none :
      (i : ℕ) (l : List (TouchedResource A)) (key : TransactionResourceKey)
      → is_some (find i l key) ≡ is_some (scan_key key l)
  unfolding scan_key is_some
  find_none i [] key = refl
  find_none i (r ∷ l) key = elim (Bool-cases (same_key (resource_key r) key)) [
    | inl same ↦ rw same refl
    | inr other ↦ rw other (find_none (suc i) l key)
  ]

  find-snoc :
      (i : ℕ) (l : List (TouchedResource A)) (r : TouchedResource A) (key : TransactionResourceKey)
      → find i (l ++ r ∷ []) key
        ≡ or_else
            (find i l key)
            (if same_key (resource_key r) key then some (i + length l) else none)
  unfolding or_else
  find-snoc i [] r key =
      ap (λ n. if same_key (resource_key r) key then some n else none) (omega arith)
  find-snoc i (x ∷ l) r key = elim (Bool-cases (same_key (resource_key x) key)) [
    | inl same ↦ rw same refl
    | inr other ↦ rw other (
        find-snoc (suc i) l r key
        ∙ ap
            (λ n.
              or_else (find (suc i) l key) (if same_key (resource_key r) key then some n else none))
            (omega arith))
  ]

  pub scan_key-append :
      (l rs : List (TouchedResource A)) (key : TransactionResourceKey)
      → scan_key key (l ++ rs) ≡ or_else (scan_key key l) (scan_key key rs)
  unfolding scan_key or_else
  scan_key-append [] rs key = refl
  scan_key-append (x ∷ l) rs key = elim (Bool-cases (same_key (resource_key x) key)) [
    | inl same ↦ rw same refl
    | inr other ↦ rw other (scan_key-append l rs key)
  ]

  pub set_position-find :
      (m : Positions) (l : List (TouchedResource A)) (r : TouchedResource A)
      → ((key : TransactionResourceKey) → m key ≡ find 0 l key)
      → find 0 l (resource_key r) ≡ none
      → (key : TransactionResourceKey)
      → set_position (resource_key r) (length l) m key ≡ find 0 (l ++ r ∷ []) key
  unfolding set_position or_else
  set_position-find m l r h new key = elim (Bool-cases (same_key (resource_key r) key)) [
    | inl same ↦
        let absent : find 0 l key ≡ none =
          subst (λ k. find 0 l k ≡ none) (same_key-eq (resource_key r) key same) new in
        rw (find-snoc 0 l r key, absent, same) (ap some (omega arith))
    | inr other ↦ rw (find-snoc 0 l r key, other, h key) (or_else-none (find 0 l key))
  ]
