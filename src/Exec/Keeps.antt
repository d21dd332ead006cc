-- ===== src/Exec/Keeps.antt =====
-- Invariants of the calls of Exec, one rule for each way to build a call.
use gex_test_jonatha.Prelude.{◌≡◌, refl, Bool, true, false, if◌then◌else◌}
use gex_test_jonatha.Exec.{
  Exn, Result, ok, raise, Exec, pure, throw, lift, gets, modify, recover, catch, continue, ◌>>=◌,
  ◌>>◌,
}

-- `m` keeps `P`, whether it returns or raises.
pub record Keeps {S A : Type 0} (P : S → Type 0) (m : Exec S A) : Type 0 where
  pub at : (s : S) → P s → P (m s).1

module _ {S A : Type 0} {P : S → Type 0} where
  pub Keeps-pure : (a : A) → Keeps P (pure {S = S} a)
  Keeps-pure a = record { at = λ s h. h }

  pub Keeps-throw : (e : Exn) → Keeps P (throw {S = S} {A = A} e)
  Keeps-throw e = record { at = λ s h. h }

  pub Keeps-lift : (r : Result A) → Keeps P (lift {S = S} r)
  Keeps-lift r = record { at = λ s h. h }

  pub Keeps-gets : (f : S → A) → Keeps P (gets f)
  Keeps-gets f = record { at = λ s h. h }

  pub Keeps-if : (b : Bool) (m k : Exec S A) → Keeps P m → Keeps P k → Keeps P (if b then m else k)
  Keeps-if true m k km kk = km
  Keeps-if false m k km kk = kk

  -- a branch may use that its test holds
  pub Keeps-when :
      (b : Bool) (m k : Exec S A)
      → (b ≡ true → Keeps P m)
      → Keeps P k
      → Keeps P (if b then m else k)
  Keeps-when true m k km kk = km refl
  Keeps-when false m k km kk = kk

  Keeps-recover :
      (h : Exn → Exec S A) (r : Result A × S)
      → ((e : Exn) → Keeps P (h e))
      → P r.1
      → P (recover h r).1
  Keeps-recover h (ok a, s) kh p = p
  Keeps-recover h (raise e, s) kh p = (kh e).at s p

  pub Keeps-catch :
      (m : Exec S A) (h : Exn → Exec S A)
      → Keeps P m
      → ((e : Exn) → Keeps P (h e))
      → Keeps P (catch m h)
  Keeps-catch m h km kh = record { at = λ s p. Keeps-recover h (m s) kh (km.at s p) }

module _ {S : Type 0} {P : S → Type 0} where
  pub Keeps-modify : (f : S → S) → ((s : S) → P s → P (f s)) → Keeps P (modify f)
  Keeps-modify f k = record { at = k }

module _ {S A B : Type 0} {P : S → Type 0} where
  pub Keeps-continue :
      (f : A → Exec S B) (r : Result A × S) → ((a : A) → Keeps P (f a)) → P r.1 → P (continue f r).1
  Keeps-continue f (ok a, s) kf p = (kf a).at s p
  Keeps-continue f (raise e, s) kf p = p

  pub Keeps-bind :
      (m : Exec S A) (f : A → Exec S B) → Keeps P m → ((a : A) → Keeps P (f a)) → Keeps P (m >>= f)
  Keeps-bind m f km kf = record { at = λ s p. Keeps-continue f (m s) kf (km.at s p) }

  pub Keeps-then : (m : Exec S A) (k : Exec S B) → Keeps P m → Keeps P k → Keeps P (m >> k)
  Keeps-then m k km kk = Keeps-bind m (λ _. k) km (λ _. kk)

pub ruleset keeps_rules =
    (Keeps-pure, Keeps-throw, Keeps-lift, Keeps-gets, Keeps-if, Keeps-catch, Keeps-bind, Keeps-then)
