-- ===== src/Prelude/Table.antt =====
-- Go's maps, as association lists over a key type with equality. The order of the list stands for
-- the order in which a range over the map meets its keys, which Go leaves open.
use high_performance_kv_stor.Prelude.{
  ◌+◌, ◌≡◌, refl, Option, none, some, List, [], ◌∷◌, arith, if◌then◌else◌, length, All, Eq, ◌==◌,
  Bool-cases, inl, inr, sym,
}
use mathlib.Core.Path.{subst₂}

abbrev pub Table {ℓ κ} : Type ℓ → Type κ → Type (ℓ ⊔ κ)
Table K V = List (K × V)

module _ {ℓ κ} {K : Type ℓ} {V : Type κ} ⦃e : Eq K⦄ where
  unfoldable pub lookup : K → Table K V → Option V
  lookup k ((j, v) ∷ m) = if j == k then some v else lookup k m
  lookup k [] = none

  unfoldable pub insert : K → V → Table K V → Table K V
  insert k v ((j, w) ∷ m) = if j == k then (k, v) ∷ m else (j, w) ∷ insert k v m
  insert k v [] = (k, v) ∷ []

  pub delete : K → Table K V → Table K V
  delete k [] = []
  delete k ((j, w) ∷ m) = let rest = delete k m in if j == k then rest else (j, w) ∷ rest

  -- The keys of a Go map are distinct.
  abbrev pub IsDistinct : Table K V → Type κ
  IsDistinct [] = Unit
  IsDistinct ((j, w) ∷ m) = (lookup j m ≡ none) × IsDistinct m

  pub lookup-insert :
      (k j : K) (v : V) (m : Table K V)
      → lookup j (insert k v m) ≡ (if k == j then some v else lookup j m)
  unfolding lookup insert
  lookup-insert k j v ((i, w) ∷ m) =
      ground (arith, lookup-insert k j v m, e.same_iff k j, e.same_iff i k, e.same_iff i j)
  lookup-insert k j v [] = refl

  pub lookup-delete :
      (k j : K) (m : Table K V) → lookup j (delete k m) ≡ (if k == j then none else lookup j m)
  unfolding lookup delete
  lookup-delete k j [] = ground arith
  lookup-delete k j ((i, w) ∷ m) =
      ground (arith, e.same_iff k j, e.same_iff i k, e.same_iff i j, lookup-delete k j m)

  pub insert-IsDistinct : (k : K) (v : V) (m : Table K V) → IsDistinct m → IsDistinct (insert k v m)
  unfolding lookup insert
  insert-IsDistinct k v [] h = (refl, tt)
  insert-IsDistinct k v ((i, w) ∷ m) h =
      ground
        (arith, e.same_iff i k, e.same_iff k i, lookup-insert k i v m, insert-IsDistinct k v m h.1)

  pub delete-IsDistinct : (k : K) (m : Table K V) → IsDistinct m → IsDistinct (delete k m)
  unfolding delete
  delete-IsDistinct k [] h = h
  delete-IsDistinct k ((i, w) ∷ m) h =
      ground (arith, lookup-delete k i m, delete-IsDistinct k m h.1)

  pub All-insert :
      (P : K × V → Type κ) (k : K) (v : V) (m : Table K V)
      → All P m
      → P (k, v)
      → All P (insert k v m)
  unfolding insert
  All-insert P k v [] h p = (p, tt)
  All-insert P k v ((i, w) ∷ m) h p = ground (arith, All-insert P k v m h.1 p)

  pub All-delete : (P : K × V → Type κ) (k : K) (m : Table K V) → All P m → All P (delete k m)
  unfolding delete
  All-delete P k [] h = h
  All-delete P k ((i, w) ∷ m) h = ground (arith, All-delete P k m h.1)

  pub All-lookup :
      (P : K × V → Type κ) (k : K) (v : V) (m : Table K V)
      → All P m
      → lookup k m ≡ some v
      → P (k, v)
  unfolding lookup
  All-lookup P k v [] h e = absurd (ground arith)
  All-lookup P k v ((i, w) ∷ m) h l = elim (Bool-cases (e.same i k)) [
    | inl same ↦
        let p : k ≡ i = sym ((e.same_iff i k).0 same) in
        let q : v ≡ w = ground arith in subst₂ (λ a b. P (a, b)) (sym p) (sym q) h.0
    | inr other ↦ All-lookup P k v m h.1 (ground arith)
  ]

  pub length-insert_new :
      (k : K) (v : V) (m : Table K V) → lookup k m ≡ none → length (insert k v m) ≡ length m + 1
  unfolding lookup insert
  length-insert_new k v [] h = refl
  length-insert_new k v ((i, w) ∷ m) h = ground (arith, length-insert_new k v m)

  pub length-insert_old :
      (k : K) (v w : V) (m : Table K V) → lookup k m ≡ some w → length (insert k v m) ≡ length m
  unfolding lookup insert
  length-insert_old k v w [] h = absurd (ground arith)
  length-insert_old k v w ((i, u) ∷ m) h = ground (arith, length-insert_old k v w m)

  delete_absent : (k : K) (m : Table K V) → lookup k m ≡ none → delete k m ≡ m
  unfolding lookup delete
  delete_absent k [] h = refl
  delete_absent k ((i, w) ∷ m) h = ground (arith, delete_absent k m)

  pub length-delete :
      (k : K) (v : V) (m : Table K V)
      → IsDistinct m
      → lookup k m ≡ some v
      → length (delete k m) + 1 ≡ length m
  unfolding lookup delete
  length-delete k v [] d h = absurd (ground arith)
  length-delete k v ((i, w) ∷ m) d h =
      ground (arith, e.same_iff i k, delete_absent k m, length-delete k v m d.1)
