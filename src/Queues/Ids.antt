-- ===== src/Queues/Ids.antt =====
-- db.go: the highest id of a table, and the increment of an int.
use nestory.Common.{
  ℕ, suc, ◌+◌, ◌^◌, ◌≤◌, ◌<◌, compare, ◌≡◌, refl, inl, inr, Bool, List, [], ◌∷◌, arith, Bool-cases,
  select, All, All-append, All-map, In,
}
use nestory.Common.Int.{ℤ, pos, negsuc, IsInt64, to_uint64, of_uint64}
use nestory.SecondaryIndex.Value.{compare_int}
use nestory.SecondaryIndex.Search.{above}
use nestory.Queues.{contains_id, next_int, put_id, put_ids, max_id}

abbrev pub IsAtMost : ℕ → ℤ → Type 0
IsAtMost most (pos n) = n ≤ most
IsAtMost most (negsuc n) = Unit

pub IsAtMost-more : (a b : ℕ) (id : ℤ) → a ≤ b → IsAtMost a id → IsAtMost b id
IsAtMost-more a b (pos n) h k = omega arith
IsAtMost-more a b (negsuc n) h k = tt

pub next_int-pos : (c : ℕ) → c + 1 < 2 ^ 63 → next_int (pos c) ≡ pos (suc c)
unfolding next_int to_uint64 of_uint64
next_int-pos c h = ground arith

pub record Highest (m : ℕ) (ids : List ℤ) : Type 0 where
  pub most : ℕ
  pub found : max_id (pos m) ids ≡ pos most
  pub small : most < 2 ^ 63
  pub start : m ≤ most
  pub all : All (IsAtMost most) ids

pub max_id-Highest : (m : ℕ) (ids : List ℤ) → m < 2 ^ 63 → All IsInt64 ids → Highest m ids
unfolding max_id above compare_int
max_id-Highest m [] small h = record {
  most = m;
  found = refl;
  small = small;
  start = omega arith;
  all = tt;
}
max_id-Highest m (negsuc n ∷ ids) small h =
    let rest = max_id-Highest m ids small h.1 in
    record {
      most = rest.most;
      found = rest.found;
      small = rest.small;
      start = rest.start;
      all = (tt, rest.all);
    }
max_id-Highest m (pos n ∷ ids) small h = elim (Bool-cases (above (compare n m))) [
  | inl more ↦
      let rest = max_id-Highest n ids h.0 h.1 in
      record {
        most = rest.most;
        found = rw more rest.found;
        small = rest.small;
        start = let k = rest.start in ground arith;
        all = (rest.start, rest.all);
      }
  | inr less ↦
      let rest = max_id-Highest m ids small h.1 in
      record {
        most = rest.most;
        found = rw less rest.found;
        small = rest.small;
        start = rest.start;
        all = (let k = rest.start in ground arith, rest.all);
      }
]

pub put_id-All : (P : ℤ → Type 0) (id : ℤ) (ids : List ℤ) → P id → All P ids → All P (put_id id ids)
unfolding put_id
put_id-All P id ids p h = elim (Bool-cases (contains_id id ids)) [
  | inl there ↦ rw there h
  | inr absent ↦ rw absent (All-append P ids (id ∷ []) h (p, tt))
]

pub put_ids-All :
    (P : ℤ → Type 0) (more ids : List ℤ) → All P more → All P ids → All P (put_ids more ids)
unfolding put_ids
put_ids-All P [] ids p h = h
put_ids-All P (id ∷ more) ids p h =
    put_ids-All P more (put_id id ids) p.1 (put_id-All P id ids p.0 h)

pub All-In_self : (ids : List ℤ) → All (λ id. In id ids) ids
All-In_self [] = tt
All-In_self (id ∷ ids) = (inl refl, All-map ids (λ x i. inr i) (All-In_self ids))

pub select-All_same :
    (P : ℤ → Type 0) (test : ℤ → Bool) (ids : List ℤ) → All P ids → All P (select test ids)
select-All_same P test [] h = tt
select-All_same P test (id ∷ ids) h = elim (Bool-cases (test id)) [
  | inl holds ↦ rw holds (h.0, select-All_same P test ids h.1)
  | inr fails ↦ rw fails (select-All_same P test ids h.1)
]
