-- ===== src/Prelude/Upsert.antt =====
-- Upserts on a list of rows, as MySQL does them for one unique index, and what they leave of any
-- index: at most one row of a key stays at most one.
use Prim.Native.Nat.{◌≤◌}
use mathlib.Core.Path.{◌≡◌, refl}
use mathlib.Core.Logic.{inl, inr}
use mathlib.Core.Bool.{Bool, true, false}
use mathlib.Core.List.{List, [], ◌∷◌, ◌++◌}
use mathlib.Core.Option.{some}
use native.Mathlib.Omega.{arith}
use gex_test_jonatha.Prelude.Tests.{if◌then◌else◌, Bool-cases}
use gex_test_jonatha.Prelude.Lists.{All, All-append, any, find, count, count-append}

module _ {ℓ} {A : Type ℓ} where
  -- the first row of the key is changed, or the new row goes to the end
  unfoldable pub put : (A → Bool) → (A → A) → A → List A → List A
  put q f new [] = new ∷ []
  put q f new (r ∷ rs) = let rest = put q f new rs in if q r then f r ∷ rs else r ∷ rest

  count_none :
      (p q : A → Bool) (rs : List A) → ((r : A) → q r ≡ p r) → any q rs ≡ false → count p rs ≡ 0
  count_none p q [] same h = refl
  count_none p q (r ∷ rs) same h = ground (arith, same r, count_none p q rs same)

  count-put_other :
      (p q : A → Bool) (f : A → A) (new : A) (rs : List A)
      → ((r : A) → p (f r) ≡ p r)
      → p new ≡ false
      → count p (put q f new rs) ≡ count p rs
  unfolding put
  count-put_other p q f new [] k h = ground arith
  count-put_other p q f new (r ∷ rs) k h = ground (arith, k r, count-put_other p q f new rs k h)

  count-put_own :
      (p q : A → Bool) (f : A → A) (new : A) (rs : List A)
      → ((r : A) → p (f r) ≡ p r)
      → ((r : A) → q r ≡ p r)
      → p new ≡ true
      → count p rs ≤ 1
      → count p (put q f new rs) ≤ 1
  unfolding put
  count-put_own p q f new [] k same h le = ground arith
  count-put_own p q f new (r ∷ rs) k same h le =
      ground (arith, k r, same r, count-put_own p q f new rs k same h)

  -- An upsert keeps at most one row of each key of the index.
  pub count-put :
      (p q : A → Bool) (f : A → A) (new : A) (rs : List A)
      → ((r : A) → p (f r) ≡ p r)
      → (p new ≡ true → (r : A) → q r ≡ p r)
      → count p rs ≤ 1
      → count p (put q f new rs) ≤ 1
  count-put p q f new rs k same le = elim (Bool-cases (p new)) [
    | inl own ↦ count-put_own p q f new rs k (same own) own le
    | inr other ↦ rw (count-put_other p q f new rs k other) le
  ]

  -- So does an insertion that is left out where the key has a row.
  pub count-insert :
      (p q : A → Bool) (new : A) (rs : List A)
      → (p new ≡ true → (r : A) → q r ≡ p r)
      → count p rs ≤ 1
      → count p (if any q rs then rs else rs ++ new ∷ []) ≤ 1
  count-insert p q new rs same le = elim (Bool-cases (any q rs)) [
    | inl hit ↦ rw hit le
    | inr miss ↦ elim (Bool-cases (p new)) [
      | inl own ↦
          rw miss (ground (arith, count-append p rs (new ∷ []), count_none p q rs (same own) miss))
      | inr other ↦ rw miss (ground (arith, count-append p rs (new ∷ [])))
    ]
  ]

  -- what holds of some row before an upsert or an insertion still does
  pub any-put :
      (p q : A → Bool) (f : A → A) (new : A) (rs : List A)
      → ((r : A) → p (f r) ≡ p r)
      → any p rs ≡ true
      → any p (put q f new rs) ≡ true
  unfolding put
  any-put p q f new [] k h = cc
  any-put p q f new (r ∷ rs) k h = ground (arith, k r, any-put p q f new rs k)

  -- the row of the key is found after its upsert
  pub find-put :
      (q : A → Bool) (f : A → A) (new : A) (rs : List A)
      → ((r : A) → q (f r) ≡ q r)
      → q new ≡ true
      → (r : A) × (find q (put q f new rs) ≡ some r)
  unfolding put
  find-put q f new [] k h = (new, ground arith)
  find-put q f new (r ∷ rs) k h = elim (Bool-cases (q r)) [
    | inl hit ↦ (f r, ground (arith, k r))
    | inr miss ↦ let (x, e) = find-put q f new rs k h in (x, ground arith)
  ]

  pub any-find :
      (p q : A → Bool) (rs : List A) (r : A) → find q rs ≡ some r → p r ≡ true → any p rs ≡ true
  any-find p q [] r e h = cc
  any-find p q (x ∷ rs) r e h = elim (Bool-cases (q x)) [
    | inl hit ↦ ground arith
    | inr miss ↦ ground (arith, any-find p q rs r)
  ]

module _ {ℓ κ} {A : Type ℓ} (P : A → Type κ) where
  pub All-put :
      (q : A → Bool) (f : A → A) (new : A) (rs : List A)
      → ((r : A) → P r → P (f r))
      → P new
      → All P rs
      → All P (put q f new rs)
  unfolding put
  All-put q f new [] k n h = (n, tt)
  All-put q f new (r ∷ rs) k n (h, hs) = elim (Bool-cases (q r)) [
    | inl hit ↦ rw hit (k r h, hs)
    | inr miss ↦ rw miss (h, All-put q f new rs k n hs)
  ]

  pub All-insert :
      (b : Bool) (new : A) (rs : List A)
      → P new
      → All P rs
      → All P (if b then rs else rs ++ new ∷ [])
  All-insert true new rs n h = h
  All-insert false new rs n h = All-append P rs (new ∷ []) h (n, tt)
