-- ===== src/Prelude/Equality.antt =====
-- Equality of keys as an instance argument.
use Prim.Native.Nat.{ℕ}
use Prim.Native.String.{String}
use mathlib.Core.Path.{◌≡◌, refl}
use mathlib.Core.Logic.{◌↔◌}
use mathlib.Core.Bool.{Bool, true}
use text.Mathlib.Text.{◌==◌ as str_eq}
use text.Mathlib.TextEquality.{eq_iff}
use distributed_key_value_ca.Prelude.Tests.{nat_beq, nat_beq_iff}

pub record Eq {κ} (K : Type κ) : Type κ where
  pub beq : K → K → Bool
  pub beq_iff : (k j : K) → (beq k j ≡ true) ↔ (k ≡ j)

-- Python compares texts by their characters.
instance abbrev pub string_eq : Eq String
string_eq = record { beq = (λ s t. str_eq s t); beq_iff = (λ s t. eq_iff s t) }

infix 50 ◌==◌
abbrev pub ◌==◌ {κ} : {K : Type κ} ⦃keys : Eq K⦄ → K → K → Bool
◌==◌ ⦃keys⦄ k j = keys.beq k j

module _ {κ} {K : Type κ} ⦃keys : Eq K⦄ where
  pub beq_refl : (k : K) → (k == k) ≡ true
  beq_refl k = (keys.beq_iff k k).1 refl

instance abbrev pub nat_eq : Eq ℕ
nat_eq = record { beq = (λ m n. nat_beq m n); beq_iff = (λ m n. nat_beq_iff m n) }
