-- ===== src/Common/Store.antt =====
-- Shared objects: a store of objects by identity, and a loop that updates each listed object.
use Prim.Native.Nat.{ℕ}
use mathlib.Core.Path.{◌≡◌, refl}
use mathlib.Core.List.{List, [], ◌∷◌}
use native.Mathlib.Omega.{arith}
use arduino_cloud_connector.Common.Tests.{◌==◌, if◌then◌else◌}
use arduino_cloud_connector.Common.Lists.{mem, Distinct}

module _ {ℓ} {S : Type ℓ} where
  abbrev pub update : (ℕ → S) → ℕ → S → ℕ → S
  update f i s j = if i == j then s else f j

  -- for _, s := range ids { *s = g(*s) }
  pub for_each : (S → S) → List ℕ → (ℕ → S) → ℕ → S
  for_each g [] h = h
  for_each g (i ∷ is) h = for_each g is (update h i (g (h i)))

  -- An object that is listed once is updated once, and the others are left alone.
  pub for_each_at :
      (g : S → S) (ids : List ℕ) (h : ℕ → S) (j : ℕ)
      → Distinct ids
      → for_each g ids h j ≡ (if mem j ids then g (h j) else h j)
  unfolding for_each
  for_each_at g [] h j d = refl
  for_each_at g (i ∷ is) h j d = ground (arith, for_each_at g is (update h i (g (h i))) j d.1)
