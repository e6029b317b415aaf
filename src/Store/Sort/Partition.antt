-- ===== src/Store/Sort/Partition.antt =====
-- partition of internal/store/store.go.
use mathlib.Core.List.{Perm}
use mathlib.Core.List.Perm
use high_performance_kv_stor.Prelude.{
  ℕ, zero, suc, ◌≤◌, ◌<◌, ◌≡◌, refl, ◌∙◌, Bool, true, [], ◌∷◌, arith, length, set, get_or-set,
  length-set, nat_beq, Bytes, ltb, leb, ◌||◌, if◌then◌else◌, Bool-cases, inl, inr,
}
use high_performance_kv_stor.Store.Sort.{Array, at, swap}

module _ (arr : Array) (i j : ℕ) where
  pub length-swap : length (swap arr i j) ≡ length arr
  unfolding swap
  length-swap = length-set (set arr i (at arr j)) j (at arr i) ∙ length-set arr i (at arr j)

  pub at-swap :
      (x : ℕ)
      → i < length arr
      → j < length arr
      → at (swap arr i j) x
        ≡ (if nat_beq j x then at arr i else if nat_beq i x then at arr j else at arr x)
  unfolding swap
  at-swap x hi hj = rw (
    get_or-set (set arr i (at arr j)) j x (at arr i) [] (rw (length-set arr i (at arr j)) hj),
    get_or-set arr i x (at arr j) [] hi,
  )

-- A write trades the old element for the new one.
set-perm :
    (arr : Array) (i : ℕ) (v : Bytes) → i < length arr → Perm (at arr i ∷ set arr i v) (v ∷ arr)
set-perm [] i v h = absurd (omega arith)
set-perm (x ∷ arr) zero v h = Perm.swap v x arr
set-perm (x ∷ arr) (suc i) v h =
    Perm.trans (Perm.swap x (at arr i) (set arr i v))
      (Perm.trans (Perm.cons x (set-perm arr i v (omega arith))) (Perm.swap v x arr))

swap-perm : (arr : Array) (i j : ℕ) → i < length arr → j < length arr → Perm (swap arr i j) arr
unfolding swap
swap-perm arr i j hi hj =
    let mid = set arr i (at arr j) in
    let kept : at mid j ≡ at arr j = ground (arith, get_or-set arr i j (at arr j) []) in
    let second = set-perm mid j (at arr i) (rw (length-set arr i (at arr j)) hj) in
    let first = set-perm arr i (at arr j) hi in Perm.cons_inv (Perm.trans (rw kept at second) first)

-- What a rearrangement of the range from `low` to below `end` keeps: the elements, the length, what
-- lies outside, and every property that all elements of the range have.
pub record IsRearranged (low end : ℕ) (arr out : Array) : Type 0 where
  pub perm : Perm out arr
  pub same_length : length out ≡ length arr
  pub outside : (x : ℕ) → (ltb x low || leb end x) ≡ true → at out x ≡ at arr x
  pub inside :
      (P : Bytes → Bool)
      → ((x : ℕ) → low ≤ x → x < end → P (at arr x) ≡ true)
      → (x : ℕ) → low ≤ x
      → x < end
      → P (at out x) ≡ true

pub IsRearranged-refl : (low end : ℕ) (arr : Array) → IsRearranged low end arr arr
IsRearranged-refl low end arr = record {
  perm = Perm.refl arr;
  same_length = refl;
  outside = λ x h. refl;
  inside = λ P h. h;
}

pub IsRearranged-trans :
    {low end : ℕ} {a b c : Array}
    → IsRearranged low end a b
    → IsRearranged low end b c
    → IsRearranged low end a c
IsRearranged-trans f g = record {
  perm = Perm.trans g.perm f.perm;
  same_length = g.same_length ∙ f.same_length;
  outside = λ x h. g.outside x h ∙ f.outside x h;
  inside = λ P h. g.inside P (f.inside P h);
}

-- A rearrangement of a part is one of the whole.
pub IsRearranged-widen :
    {low end lo hi : ℕ} {a b : Array}
    → low ≤ lo
    → hi ≤ end
    → IsRearranged lo hi a b
    → IsRearranged low end a b
IsRearranged-widen {low} {end} {lo} {hi} {a} {b} hl he f = record {
  perm = f.perm;
  same_length = f.same_length;
  outside = λ x h. f.outside x (ground arith);
  inside = λ P h x le lt. elim (Bool-cases (ltb x lo || leb hi x)) [
    | inl out ↦ rw (f.outside x out) (h x le lt)
    | inr within ↦
        f.inside P (λ y l u. h y (omega arith) (omega arith)) x (ground arith) (ground arith)
  ];
}

pub swap-IsRearranged :
    (low end i j : ℕ) (arr : Array)
    → low ≤ i
    → i ≤ j
    → j < end
    → end ≤ length arr
    → IsRearranged low end arr (swap arr i j)
swap-IsRearranged low end i j arr hl hij hj he = record {
  perm = swap-perm arr i j (omega arith) (omega arith);
  same_length = length-swap arr i j;
  outside = λ x h. ground (arith, at-swap arr i j x);
  inside = λ P h x le lt. ground (arith, at-swap arr i j x, h x, h i, h j);
}
