-- ===== src/Effects/Runs.antt =====
-- One step of a run: from what the first action returns to what the whole block does.
use troxe_host.Common.{◌≡◌, refl}
use troxe_host.Effects.{
  World, Failure, Result, ok, thrown, Exec, pure, try_catch, handle, continue, ◌>>=◌,
}

module _ {A B : Type 0} (Q : Result B × World → Type 0) (m : Exec A) (f : A → Exec B) where
  -- The rest of a block runs from where an action that returned left off.
  pub bind-ok : {w : World} (a : A) (w' : World) → m w ≡ (ok a, w') → Q (f a w') → Q ((m >>= f) w)
  unfolding ◌>>=◌
  bind-ok a w' e q = rw e q

  -- A throw ends the block.
  pub bind-thrown :
      {w : World} (t : Failure) (w' : World)
      → m w ≡ (thrown t, w')
      → Q (thrown t, w')
      → Q ((m >>= f) w)
  unfolding ◌>>=◌
  bind-thrown t w' e q = rw e q

-- A handler of errors is not run where there is none.
pub try_catch-ok :
    {A : Type 0} (m : Exec A) (h : Failure → Exec A) {w : World} (a : A) (w' : World)
    → m w ≡ (ok a, w')
    → try_catch m h w ≡ (ok a, w')
unfolding try_catch
try_catch-ok m h a w' e = rw e

module _ {A B C : Type 0} where
  continue_assoc :
      (r : Result A) (f : A → Exec B) (g : B → Exec C) (w : World)
      → (let (s, w') = continue r f w in continue s g w') ≡ continue r (λ a. f a >>= g) w
  unfolding ◌>>=◌
  continue_assoc (ok a) f g w = refl
  continue_assoc (thrown e) f g w = refl

  pub then_assoc :
      (m : Exec A) (f : A → Exec B) (g : B → Exec C) (w : World)
      → ((m >>= f) >>= g) w ≡ (m >>= λ a. f a >>= g) w
  unfolding ◌>>=◌
  then_assoc m f g w = continue_assoc (m w).0 f g (m w).1

-- A handler that swallows every error returns.
pub handled-ok : (r : Result (Unit {0})) (w : World) → (handle (λ err. pure tt) (r, w)).0 ≡ ok tt
unfolding pure
handled-ok (ok _) w = refl
handled-ok (thrown e) w = refl
