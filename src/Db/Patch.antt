-- ===== src/Db/Patch.antt =====
-- The `updates` of a route that changes the columns that its body names, and no other.

use troxe_host.Common.{Option, none, some, List, [], ◌∷◌}

-- `if (body.x !== undefined) updates.push(...)`
abbrev pub change {ℓ κ} : {A : Type ℓ} {R : Type κ} → Option A → (A → R → R) → Option (R → R)
change none set = none
change (some a) set = some (set a)

module _ {ℓ} {R : Type ℓ} where
  -- the array `updates`, in the order of the pushes
  unfoldable pub updates : List (Option (R → R)) → List (R → R)
  updates [] = []
  updates (none ∷ rest) = updates rest
  updates (some f ∷ rest) = f ∷ updates rest

  -- `SET` with the columns of `updates`
  unfoldable pub set_all : List (R → R) → R → R
  set_all [] r = r
  set_all (f ∷ fs) r = set_all fs (f r)
