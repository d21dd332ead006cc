-- ===== src/Exec/Gives.antt =====
-- What holds where a call returns.
use gex_test_jonatha.Exec.{Exn, Result, ok, raise, Exec, recover, continue}
use gex_test_jonatha.Exec.Keeps.{Keeps}

-- `Q` holds of the value and the state, if there is a value
abbrev pub Gives : {S A : Type 0} → (A → S → Type 0) → Result A × S → Type 0
Gives Q (ok a, s) = Q a s
Gives Q (raise e, s) = Unit {0}

module _ {S A : Type 0} where
  pub Gives-map :
      (Q R : A → S → Type 0) (p : Result A × S)
      → Gives Q p
      → ((a : A) (s : S) → Q a s → R a s)
      → Gives R p
  Gives-map Q R (ok a, s) h k = k a s h
  Gives-map Q R (raise e, s) h k = tt

  Gives-of : (P : S → Type 0) (p : Result A × S) → P p.1 → Gives (λ _ s. P s) p
  Gives-of P (ok a, s) h = h
  Gives-of P (raise e, s) h = tt

  pub Gives-Keeps :
      (P : S → Type 0) (m : Exec S A) (s : S) → Keeps P m → P s → Gives (λ _ v. P v) (m s)
  Gives-Keeps P m s k h = Gives-of P (m s) (k.at s h)

  pub Gives-recover :
      (Q : A → S → Type 0) (h : Exn → Exec S A) (p : Result A × S)
      → Gives Q p
      → ((e : Exn) (s : S) → Gives Q (h e s))
      → Gives Q (recover h p)
  Gives-recover Q h (ok a, s) g k = g
  Gives-recover Q h (raise e, s) g k = k e s

module _ {S A B : Type 0} where
  pub Gives-continue :
      (R : A → S → Type 0) (Q : B → S → Type 0) (f : A → Exec S B) (p : Result A × S)
      → Gives R p
      → ((a : A) (s : S) → R a s → Gives Q (f a s))
      → Gives Q (continue f p)
  Gives-continue R Q f (ok a, s) g k = k a s g
  Gives-continue R Q f (raise e, s) g k = tt
