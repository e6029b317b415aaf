-- ===== src/Prelude/Order.antt =====
-- Go's `<` on strings: byte by byte, a prefix first.
use high_performance_kv_stor.Prelude.{
  ◌≡◌, refl, Bool, true, false, [], ◌∷◌, arith, Bytes, ltb, if◌then◌else◌,
}

unfoldable pub bytes_ltb : Bytes → Bytes → Bool
bytes_ltb [] [] = false
bytes_ltb [] (y ∷ ys) = true
bytes_ltb (x ∷ xs) [] = false
bytes_ltb (x ∷ xs) (y ∷ ys) = if ltb x y then true else if ltb y x then false else bytes_ltb xs ys

pub bytes_ltb_irrefl : (a : Bytes) → bytes_ltb a a ≡ false
unfolding bytes_ltb
bytes_ltb_irrefl [] = refl
bytes_ltb_irrefl (x ∷ xs) = ground (arith, bytes_ltb_irrefl xs)

pub bytes_ltb_asymm : (a b : Bytes) → bytes_ltb a b ≡ true → bytes_ltb b a ≡ false
unfolding bytes_ltb
bytes_ltb_asymm [] [] h = refl
bytes_ltb_asymm [] (y ∷ ys) h = refl
bytes_ltb_asymm (x ∷ xs) [] h = ground arith
bytes_ltb_asymm (x ∷ xs) (y ∷ ys) h = ground (arith, bytes_ltb_asymm xs ys)

-- "not below" is transitive, so it is the order of the sorted list.
pub bytes_ge_trans :
    (a b c : Bytes) → bytes_ltb b a ≡ false → bytes_ltb c b ≡ false → bytes_ltb c a ≡ false
unfolding bytes_ltb
bytes_ge_trans [] [] [] h k = refl
bytes_ge_trans [] [] (z ∷ zs) h k = refl
bytes_ge_trans [] (y ∷ ys) [] h k = refl
bytes_ge_trans [] (y ∷ ys) (z ∷ zs) h k = refl
bytes_ge_trans (x ∷ xs) [] c h k = ground arith
bytes_ge_trans (x ∷ xs) (y ∷ ys) [] h k = ground arith
bytes_ge_trans (x ∷ xs) (y ∷ ys) (z ∷ zs) h k = ground (arith, bytes_ge_trans xs ys zs)

pub bytes_antisym : (a b : Bytes) → bytes_ltb a b ≡ false → bytes_ltb b a ≡ false → a ≡ b
unfolding bytes_ltb
bytes_antisym [] [] h k = refl
bytes_antisym [] (y ∷ ys) h k = ground arith
bytes_antisym (x ∷ xs) [] h k = ground arith
bytes_antisym (x ∷ xs) (y ∷ ys) h k = ground (arith, bytes_antisym xs ys)
