-- ===== src/Prelude/Equality.antt =====
-- Byte strings, and equality as an interface, on native texts and on byte strings.
use Prim.Native.Nat.{ℕ}
use Prim.Native.String.{String}
use mathlib.Core.Path.{◌≡◌}
use mathlib.Core.Logic.{◌↔◌}
use mathlib.Core.Bool.{Bool, true, false, ◌&&◌}
use mathlib.Core.List.{List, [], ◌∷◌}
use native.Mathlib.Omega.{arith}
use text.Mathlib.Text.{◌==◌ as str_beq}
use text.Mathlib.TextEquality.{eq_iff}
use high_performance_kv_stor.Prelude.Tests.{nat_beq}

-- A Go string or byte slice.
abbrev pub Bytes : Type 0
Bytes = List ℕ

unfoldable pub bytes_beq : Bytes → Bytes → Bool
bytes_beq (a ∷ l) (b ∷ m) = nat_beq a b && bytes_beq l m
bytes_beq [] [] = true
bytes_beq _ _ = false

pub bytes_beq_iff : (a b : Bytes) → (bytes_beq a b ≡ true) ↔ (a ≡ b)
unfolding bytes_beq
bytes_beq_iff (a ∷ l) (b ∷ m) = ground (arith, bytes_beq_iff l m)
bytes_beq_iff (a ∷ l) [] = ground arith
bytes_beq_iff [] (b ∷ m) = ground arith
bytes_beq_iff [] [] = ground arith

-- What a map needs of its keys.
pub record Eq {ℓ} (A : Type ℓ) : Type ℓ where
  pub same : A → A → Bool
  pub same_iff : (a b : A) → (same a b ≡ true) ↔ (a ≡ b)

instance abbrev pub string_eq : Eq String
string_eq = record { same = str_beq; same_iff = eq_iff }

instance abbrev pub bytes_eq : Eq Bytes
bytes_eq = record { same = bytes_beq; same_iff = bytes_beq_iff }

infix 50 ◌==◌
abbrev pub ◌==◌ {ℓ} : {A : Type ℓ} ⦃e : Eq A⦄ → A → A → Bool
◌==◌ ⦃e⦄ = e.same
