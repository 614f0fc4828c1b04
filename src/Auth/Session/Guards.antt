-- ===== src/Auth/Session/Guards.antt =====
-- Guards in a row: what follows from one that passes, and from a row that passes.
use troxe_host.Common.{◌≡◌, refl}
use troxe_host.Auth.Rbac.{Guarded, pass, deny, ◌>>=◌, ◌>>◌}

module _ {A B : Type 0} where
  pub bind-pass :
      (m : Guarded A) (f : A → Guarded B) {a : A} {r : Guarded B}
      → m ≡ pass a
      → f a ≡ r
      → (m >>= f) ≡ r
  bind-pass m f e q = rw e q

  pub then-eq-pass : (m : Guarded A) (k : Guarded B) {b : B} → (m >> k) ≡ pass b → k ≡ pass b
  then-eq-pass (pass a) k h = h
  then-eq-pass (deny status message) k h = cc

  pub bind-eq-pass :
      (m : Guarded A) (f : A → Guarded B) {b : B}
      → (m >>= f) ≡ pass b
      → (a : A) × (m ≡ pass a) × (f a ≡ pass b)
  bind-eq-pass (pass a) f h = (a, refl, h)
  bind-eq-pass (deny status message) f h = cc
