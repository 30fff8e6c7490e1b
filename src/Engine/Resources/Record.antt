-- ===== src/Engine/Resources/Record.antt =====
-- engine.go, `recordBatch`: the resources of a batch are added behind those that are there, each
-- unless its key is there already.
use nestory.Common.{
  some_ne_none, ℕ, ◌+◌, ◌≡◌, refl, sym, ap, ◌∙◌, subst, ◌≢◌, inl, inr, true, false, Option, none,
  some, List, [], ◌∷◌, ◌++◌, append-nil, append_assoc, arith, Bool-cases, Option-cases, length,
}
use nestory.Engine.Resources.{
  TransactionResourceKey, TouchedResource, same_key, resource_key, Positions, TransactionState,
  has_key, scan_key, is_some, is_recorded, set_pos, record_resource,
}
use nestory.Engine.Resources.Laws.{
  or_else, join, touched, find, Distinct, Indexes, IsValid, find_none, scan_key-append,
  set_position-find, same_key-eq,
}

is_some-none : {B : Type 0} (o : Option B) → is_some o ≡ false → o ≡ none
unfolding is_some
is_some-none none h = refl
is_some-none (some b) h = ground arith

no_none : {B : Type 0} (o : Option B) → is_some o ≡ true → o ≢ none
unfolding is_some
no_none none h e = ground arith
no_none (some b) h e = ground arith

pub cons_ne_nil : {B : Type 0} (x : B) (xs : List B) → x ∷ xs ≢ []
cons_ne_nil x xs h = ground arith

module _ {A : Type 0} where
  abbrev pub state :
      Option (TouchedResource A) → List (TouchedResource A) → Option Positions → TransactionState A
  state f rs p = record { resource = f; resources = rs; resource_pos = p }

  is_recorded-scan_at :
      (key : TransactionResourceKey) (f : Option (TouchedResource A))
      (rs : List (TouchedResource A)) (p : Option Positions)
      → Indexes p (join f rs)
      → is_recorded key (state f rs p) ≡ is_some (scan_key key (join f rs))
  unfolding is_recorded has_key scan_key is_some
  is_recorded-scan_at key f rs (some m) h = ap is_some (h key) ∙ find_none 0 (join f rs) key
  is_recorded-scan_at key none rs none h = refl
  is_recorded-scan_at key (some r) rs none h = elim (Bool-cases (same_key (resource_key r) key)) [
    | inl same ↦ rw same refl
    | inr other ↦ rw other refl
  ]

  Distinct-snoc :
      (l rs : List (TouchedResource A)) (r : TouchedResource A)
      → Distinct l rs
      → scan_key (resource_key r) (l ++ rs) ≡ none
      → Distinct l (rs ++ r ∷ [])
  Distinct-snoc l [] r h new =
      (subst (λ xs. scan_key (resource_key r) xs ≡ none) (append-nil l) new, tt)
  Distinct-snoc l (x ∷ rs) r h new = (
    h.0,
    Distinct-snoc (l ++ x ∷ []) rs r h.1
        (subst (λ xs. scan_key (resource_key r) xs ≡ none) (sym (append_assoc l (x ∷ []) rs)) new),
  )

  pub find_absent :
      (l : List (TouchedResource A)) (key : TransactionResourceKey)
      → scan_key key l ≡ none
      → find 0 l key ≡ none
  unfolding is_some
  find_absent l key h = is_some-none (find 0 l key) (find_none 0 l key ∙ ap is_some h)

  set_pos-Indexes :
      (p : Option Positions) (l : List (TouchedResource A)) (r : TouchedResource A) (n : ℕ)
      → n ≡ length l
      → Indexes p l
      → scan_key (resource_key r) l ≡ none
      → Indexes (set_pos (resource_key r) n p) (l ++ r ∷ [])
  unfolding set_pos is_some
  set_pos-Indexes none l r n e h new = tt
  set_pos-Indexes (some m) l r n e h new = rw e (
      set_position-find m l r h (
        is_some-none (find 0 l (resource_key r)) (find_none 0 l (resource_key r) ∙ ap is_some new)))

  known_again :
      (l rest : List (TouchedResource A)) (r : TouchedResource A) (key : TransactionResourceKey)
      → is_some (scan_key (resource_key r) l) ≡ true
      → scan_key key (l ++ rest) ≡ scan_key key (l ++ r ∷ rest)
  unfolding scan_key is_some or_else
  known_again l rest r key h =
      rw (scan_key-append l rest key, scan_key-append l (r ∷ rest) key)
        (elim (Bool-cases (same_key (resource_key r) key)) [
          | inr other ↦ rw other refl
          | inl same ↦ elim (Option-cases (scan_key key l)) [
            | inr (a, k) ↦ rw k refl
            | inl k ↦ absurd (
                no_none (scan_key (resource_key r) l) h
                  (ap (λ x. scan_key x l) (same_key-eq (resource_key r) key same) ∙ k))
          ]
        ])

  abbrev pub Recorded : TouchedResource A → TransactionState A → TransactionState A → Type 0
  Recorded r tx tx' =
      IsValid tx'
      × ((key : TransactionResourceKey) (rest : List (TouchedResource A))
          → scan_key key (touched tx' ++ rest) ≡ scan_key key (touched tx ++ r ∷ rest))

  record_new :
      (r : TouchedResource A) (f : Option (TouchedResource A)) (rs : List (TouchedResource A))
      (p : Option Positions)
      → IsValid (state f rs p)
      → is_recorded (resource_key r) (state f rs p) ≡ false
      → scan_key (resource_key r) (join f rs) ≡ none
      → Recorded r (state f rs p) (record_resource r (state f rs p))
  unfolding record_resource
  record_new r none (x ∷ rs) p v e new = absurd (cons_ne_nil x rs (v.shape refl))
  record_new r none [] p v e new =
      rw (record_resource, e)
        (
          record {
            shape = λ h. refl;
            distinct = (new, tt);
            indexed = set_pos-Indexes p [] r 0 refl v.indexed new;
          },
          λ key rest. refl,
        )
  record_new r (some first) rs p v e new =
      rw (record_resource, e)
        (
          record {
            shape = λ h. absurd (some_ne_none h);
            distinct = Distinct-snoc [] (first ∷ rs) r v.distinct new;
            indexed = set_pos-Indexes p (first ∷ rs) r (length rs + 1) (omega arith) v.indexed new;
          },
          λ key rest. ap (scan_key key) (append_assoc (first ∷ rs) (r ∷ []) rest),
        )

  pub record_step :
      (r : TouchedResource A) (tx : TransactionState A)
      → IsValid tx
      → Recorded r tx (record_resource r tx)
  unfolding record_resource
  record_step r tx v =
      let same =
        is_recorded-scan_at (resource_key r) tx.resource tx.resources tx.resource_pos v.indexed in
      elim (Bool-cases (is_recorded (resource_key r) tx)) [
        | inl known ↦
            rw (record_resource, known)
              (v, λ key rest. known_again (touched tx) rest r key (sym same ∙ known))
        | inr new ↦
            record_new r tx.resource tx.resources tx.resource_pos v new
              (is_some-none (scan_key (resource_key r) (touched tx)) (sym same ∙ new))
      ]
