-- ===== src/Prelude/Map.antt =====
-- Go's map, as an association list whose keys are distinct.
use bs_notify_hub.Prelude.Tests.{if◌then◌else◌}
use bs_notify_hub.Prelude.Keys.{Key, same}
use mathlib.Core.Path.{◌≡◌}
use mathlib.Core.Option.{Option, none, some}
use mathlib.Core.List.{List, [], ◌∷◌}
use native.Mathlib.Omega.{arith}

module _ {ℓ κ} {K : Type ℓ} {V : Type κ} ⦃e : Key K⦄ where
  -- v, ok := m[k]
  unfoldable pub get : K → List (K × V) → Option V
  get k [] = none
  get k ((j, v) ∷ m) = if same j k then some v else get k m

  -- delete(m, k)
  unfoldable pub remove : K → List (K × V) → List (K × V)
  remove k [] = []
  remove k ((j, v) ∷ m) = let rest = remove k m in if same j k then rest else (j, v) ∷ rest

  -- m[k] = v
  unfoldable pub put : K → V → List (K × V) → List (K × V)
  unfolding remove
  put k v m = (k, v) ∷ remove k m

  pub get-remove :
      (k j : K) (m : List (K × V)) → get j (remove k m) ≡ (if same k j then none else get j m)
  unfolding get remove
  get-remove k j [] = ground arith
  get-remove k j ((i, v) ∷ m) = ground (arith, get-remove k j m)

  pub get-put :
      (k j : K) (v : V) (m : List (K × V))
      → get j (put k v m) ≡ (if same k j then some v else get j m)
  unfolding get put
  get-put k j v m = ground (arith, get-remove k j m)

module _ {ℓ κ} {K : Type ℓ} {V : Type κ} ⦃e : Key K⦄ where
  -- No key stands twice.
  abbrev pub Distinct : List (K × V) → Type (ℓ ⊔ κ)
  Distinct [] = Unit
  Distinct ((k, v) ∷ m) = (get k m ≡ none) × Distinct m

  pub remove-Distinct : (k : K) (m : List (K × V)) → Distinct m → Distinct (remove k m)
  unfolding remove
  remove-Distinct k [] d = tt
  remove-Distinct k ((j, v) ∷ m) d = ground (arith, get-remove k j m, remove-Distinct k m d.1)

  pub put-Distinct : (k : K) (v : V) (m : List (K × V)) → Distinct m → Distinct (put k v m)
  unfolding put
  put-Distinct k v m d = (ground (arith, get-remove k k m), remove-Distinct k m d)

  -- In a map an entry of the tail is not hidden by the head.
  pub get_tail :
      (k j : K) (v w : V) (m : List (K × V))
      → Distinct ((k, v) ∷ m)
      → get j m ≡ some w
      → get j ((k, v) ∷ m) ≡ some w
  unfolding get
  get_tail k j v w m d h = ground arith

  pub get_head : (k : K) (v : V) (m : List (K × V)) → get k ((k, v) ∷ m) ≡ some v
  unfolding get
  get_head k v m = ground arith
