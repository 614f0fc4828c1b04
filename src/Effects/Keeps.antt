-- ===== src/Effects/Keeps.antt =====
-- Invariants of actions: one rule for each way to build an action.
use troxe_host.Common.{Bool, true, false, if◌then◌else◌}
use troxe_host.Effects.{
  World, Failure, Result, ok, thrown, Exec, pure, throw, gets, try_catch, handle, continue, ◌>>=◌,
}

-- `m` keeps `P`, whether it returns or throws.
pub record Keeps {A : Type 0} (P : World → Type 0) (m : Exec A) : Type 0 where
  pub at : (w : World) → P w → P (m w).1

module _ {A : Type 0} {P : World → Type 0} where
  pub Keeps-pure : (a : A) → Keeps P (pure a)
  unfolding pure
  Keeps-pure a = record { at = λ w h. h }

  pub Keeps-throw : (e : Failure) → Keeps P (throw {A = A} e)
  unfolding throw
  Keeps-throw e = record { at = λ w h. h }

  pub Keeps-gets : (f : World → A) → Keeps P (gets f)
  unfolding gets
  Keeps-gets f = record { at = λ w h. h }

  pub Keeps-if : (b : Bool) (m n : Exec A) → Keeps P m → Keeps P n → Keeps P (if b then m else n)
  Keeps-if true m n km kn = km
  Keeps-if false m n km kn = kn

  Keeps-handle :
      (r : Result A) (h : Failure → Exec A)
      → ((e : Failure) → Keeps P (h e))
      → (w : World) → P w
      → P (handle h (r, w)).1
  Keeps-handle (ok a) h kh w p = p
  Keeps-handle (thrown e) h kh w p = (kh e).at w p

  pub Keeps-try_catch :
      (m : Exec A) (h : Failure → Exec A)
      → Keeps P m
      → ((e : Failure) → Keeps P (h e))
      → Keeps P (try_catch m h)
  unfolding try_catch
  Keeps-try_catch m h km kh = record {
    at = λ w p. let (r, w') = m w in Keeps-handle r h kh w' (km.at w p);
  }

module _ {A B : Type 0} {P : World → Type 0} where
  Keeps-continue :
      (r : Result A) (f : A → Exec B)
      → ((a : A) → Keeps P (f a))
      → (w : World) → P w
      → P (continue r f w).1
  Keeps-continue (ok a) f kf w p = (kf a).at w p
  Keeps-continue (thrown e) f kf w p = p

  pub Keeps-bind :
      (m : Exec A) (f : A → Exec B) → Keeps P m → ((a : A) → Keeps P (f a)) → Keeps P (m >>= f)
  unfolding ◌>>=◌
  Keeps-bind m f km kf = record {
    at = λ w p. let (r, w') = m w in Keeps-continue r f kf w' (km.at w p);
  }

pub ruleset keeps_rules =
    (Keeps-pure, Keeps-throw, Keeps-gets, Keeps-if, Keeps-try_catch, Keeps-bind)
