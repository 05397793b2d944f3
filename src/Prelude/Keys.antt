-- ===== src/Prelude/Keys.antt =====
-- Decidable equality of the types that the program compares, as an instance.
use Prim.Native.Nat.{ℕ}
use Prim.Native.String.{String}
use mathlib.Core.Path.{◌≡◌, refl}
use mathlib.Core.Logic.{◌↔◌}
use mathlib.Core.Bool.{Bool, true, false}
use native.Mathlib.Omega.{arith}
use native.Mathlib.Decide.{ℕ_discrete}
use text.Mathlib.Text.{◌==◌ as str_eq}
use text.Mathlib.TextEquality.{eq_iff}

pub record Key {ℓ} (K : Type ℓ) : Type ℓ where
  pub eq? : Discrete K

unfoldable pub dec_of_iff : {P : Type 0} (b : Bool) → (b ≡ true) ↔ P → Dec P
dec_of_iff true h = yes (h.0 refl)
dec_of_iff false h = no (λ p. cc (h.1 p))

unfoldable pub String-discrete : Discrete String
unfolding dec_of_iff
String-discrete a b = dec_of_iff (str_eq a b) (eq_iff a b)

pub pair-discrete {ℓ κ} : {A : Type ℓ} {B : Type κ} → Discrete A → Discrete B → Discrete (A × B)
pair-discrete da db = hlevel (da, db)

instance abbrev pub string_key : Key String
string_key = record { eq? = String-discrete }

instance abbrev pub nat_key : Key ℕ
nat_key = record { eq? = ℕ_discrete }

instance abbrev pub pair_key {ℓ κ} : {A : Type ℓ} {B : Type κ} ⦃a : Key A⦄ ⦃b : Key B⦄ → Key (A × B)
pair_key ⦃a⦄ ⦃b⦄ = record { eq? = pair-discrete a.eq? b.eq? }

-- Go's `==` on such a type.
abbrev pub same {ℓ} : {K : Type ℓ} ⦃e : Key K⦄ → K → K → Bool
same ⦃e⦄ a b = elim (e.eq? a b) [ yes _ ↦ true | no _ ↦ false ]

pub same_iff {ℓ} : {K : Type ℓ} ⦃e : Key K⦄ (a b : K) → (same a b ≡ true) ↔ (a ≡ b)
same_iff ⦃e⦄ a b = ground arith
