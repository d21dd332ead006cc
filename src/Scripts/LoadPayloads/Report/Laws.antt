-- ===== src/Scripts/LoadPayloads/Report/Laws.antt =====
-- The statuses of scripts/load_payloads.py are printed in order.
use Prim.Native.String.{[] as nil, ◌∷◌ as cons}
use mathlib.Core.List.{Perm}
use mathlib.Core.List.Perm
use gex_test_jonatha.Prelude.{
  ℕ, ◌≡◌, ◌≢◌, refl, String, Bool, true, false, some, map, List, [], ◌∷◌, arith, All, All-map,
  Bool-cases, eqb, inl, inr,
}
use gex_test_jonatha.Scripts.LoadPayloads.Report.{
  Formats, before, insert_item, sorted_items, text_items, status_line, status_lines, run_lines,
  total_lines,
}
use gex_test_jonatha.Scripts.LoadPayloads.Counting.{Counter, add, counted, update}
use gex_test_jonatha.Json.{Json, text}
use gex_test_jonatha.Exec.{Result, ok, and_then}

insert_item-perm :
    (k : String) (n : ℕ) (items : List (String × ℕ))
    → Perm (insert_item (k, n) items) ((k, n) ∷ items)
unfolding insert_item
insert_item-perm k n [] = Perm.refl _
insert_item-perm k n ((j, m) ∷ items) = elim (Bool-cases (before k j)) [
  | inl first ↦ rw first (Perm.refl _)
  | inr later ↦ rw later (Perm.trans (Perm.cons _ (insert_item-perm k n items)) (Perm.swap _ _ _))
]

sorted_items-perm : (items : List (String × ℕ)) → Perm (sorted_items items) items
unfolding sorted_items
sorted_items-perm [] = Perm.refl _
sorted_items-perm ((k, n) ∷ items) =
    Perm.trans (insert_item-perm k n (sorted_items items)) (Perm.cons _ (sorted_items-perm items))

before_trans : (a b c : String) → before a b ≡ true → before b c ≡ true → before a c ≡ true
before_trans nil nil c h k = k
before_trans nil (cons y b) nil h k = k
before_trans nil (cons y b) (cons z c) h k = refl
before_trans (cons x a) nil c h k = cc
before_trans (cons x a) (cons y b) nil h k = k
before_trans (cons x a) (cons y b) (cons z c) h k = ground (arith, before_trans a b c)

-- No item is before an earlier one.
abbrev pub IsAscending : List (String × ℕ) → Type 0
IsAscending [] = Unit {0}
IsAscending (item ∷ items) = All (λ x. before x.0 item.0 ≡ false) items × IsAscending items

before_self : (a : String) → before a a ≡ false
before_self nil = refl
before_self (cons c a) = ground (arith, before_self a)

not_before : (x k j : String) → before k j ≡ true → before x j ≡ false → before x k ≡ false
not_before x k j h n = elim (Bool-cases (before x k)) [
  | inl less ↦ let less' = before_trans x k j less h in cc
  | inr other ↦ other
]

All-insert_item :
    (P : String × ℕ → Type 0) (k : String) (n : ℕ) (items : List (String × ℕ))
    → P (k, n)
    → All P items
    → All P (insert_item (k, n) items)
unfolding insert_item
All-insert_item P k n [] p h = (p, tt)
All-insert_item P k n ((j, m) ∷ items) p (h, hs) = elim (Bool-cases (before k j)) [
  | inl first ↦ rw first (p, (h, hs))
  | inr later ↦ rw later (h, All-insert_item P k n items p hs)
]

insert_item-IsAscending :
    (k : String) (n : ℕ) (items : List (String × ℕ))
    → IsAscending items
    → IsAscending (insert_item (k, n) items)
unfolding insert_item
insert_item-IsAscending k n [] h = (tt, tt)
insert_item-IsAscending k n ((j, m) ∷ items) (below, h) = elim (Bool-cases (before k j)) [
  | inl first ↦ rw first (
    (
      not_before j k j first (before_self j),
      All-map (λ x. before x.0 j ≡ false) (λ x. before x.0 k ≡ false)
          (λ x b. not_before x.0 k j first b) items below,
    ),
    (below, h),
  )
  | inr later ↦ rw later (
    All-insert_item (λ x. before x.0 j ≡ false) k n items later below,
    insert_item-IsAscending k n items h,
  )
]

sorted_items-IsAscending : (items : List (String × ℕ)) → IsAscending (sorted_items items)
unfolding sorted_items
sorted_items-IsAscending [] = tt
sorted_items-IsAscending ((k, n) ∷ items) =
    insert_item-IsAscending k n (sorted_items items) (sorted_items-IsAscending items)

-- Statuses that are texts are printed below their heading, each item of the counter once, and none
-- after one that is greater.
pub status_lines_sorted :
    (f : Formats) (item : Json × ℕ) (c : Counter Json) (items : List (String × ℕ))
    → text_items (item ∷ c) ≡ some items
    → (sorted : List (String × ℕ)) × Perm sorted items
      × IsAscending sorted
      × (status_lines f (item ∷ c) ≡ ok ("By response status:" ∷ map (status_line f) sorted))
unfolding status_lines
status_lines_sorted f item c items h =
    (sorted_items items, sorted_items-perm items, sorted_items-IsAscending items, rw h refl)

abbrev pub IsText : Json → Type 0
IsText v = (s : String) × (v ≡ text s)

-- The lines by status can be printed.
abbrev pub IsPrintable : Counter Json → Type 0
IsPrintable = All (λ x. IsText x.0)

text_items-some :
    (c : Counter Json) → IsPrintable c → (items : List (String × ℕ)) × (text_items c ≡ some items)
text_items-some [] h = ([], refl)
text_items-some ((k, n) ∷ c) ((s, e), hs) =
    let (items, e') = text_items-some c hs in ((s, n) ∷ items, rw (e, e') refl)

pub status_lines-ok :
    (f : Formats) (c : Counter Json)
    → IsPrintable c
    → (lines : List String) × (status_lines f c ≡ ok lines)
unfolding status_lines
status_lines-ok f [] h = ([], refl)
status_lines-ok f (item ∷ c) h =
    let (items, e) = text_items-some (item ∷ c) h in
    ("By response status:" ∷ map (status_line f) (sorted_items items), rw e refl)

and_then-ok :
    {A B : Type 0} (r : Result A) (g : A → B)
    → ((a : A) × (r ≡ ok a))
    → (b : B) × (and_then r (λ a. ok (g a)) ≡ ok b)
and_then-ok r g (a, e) = (g a, rw e refl)

pub run_lines-ok :
    (f : Formats) (i repeat sent elapsed : ℕ) (http : Counter ℕ) (status : Counter Json)
    → IsPrintable status
    → (lines : List String) × (run_lines f i repeat sent elapsed http status ≡ ok lines)
unfolding run_lines
run_lines-ok f i repeat sent elapsed http status h =
    and_then-ok (status_lines f status) _ (status_lines-ok f status h)

pub total_lines-ok :
    (f : Formats) (sent elapsed errors : ℕ) (http : Counter ℕ) (status : Counter Json)
    → elapsed ≢ 0
    → IsPrintable status
    → (lines : List String) × (total_lines f sent elapsed errors http status ≡ ok lines)
unfolding total_lines
total_lines-ok f sent elapsed errors http status moved h =
    let later : eqb elapsed 0 ≡ false = ground arith in
    rw later (and_then-ok (status_lines f status) _ (status_lines-ok f status h))

-- What is counted stays printable.
module _ (same : Json → Json → Bool) where
  add-IsPrintable :
      (n : ℕ) (k : Json) (c : Counter Json)
      → IsText k
      → IsPrintable c
      → IsPrintable (add same n k c)
  unfolding add
  add-IsPrintable n k [] h hs = (h, tt)
  add-IsPrintable n k ((j, m) ∷ c) h (g, gs) = elim (Bool-cases (same j k)) [
    | inl own ↦ rw own (g, gs)
    | inr later ↦ rw later (g, add-IsPrintable n k c h gs)
  ]

  pub counted-IsPrintable :
      (ks : List Json) (c : Counter Json)
      → All IsText ks
      → IsPrintable c
      → IsPrintable (counted same c ks)
  unfolding counted
  counted-IsPrintable [] c h hs = hs
  counted-IsPrintable (k ∷ ks) c (h, hs) g =
      counted-IsPrintable ks (add same 1 k c) hs (add-IsPrintable 1 k c h g)

  pub update-IsPrintable :
      (d c : Counter Json) → IsPrintable d → IsPrintable c → IsPrintable (update same c d)
  unfolding update
  update-IsPrintable [] c h g = g
  update-IsPrintable ((k, n) ∷ d) c (h, hs) g =
      update-IsPrintable d (add same n k c) hs (add-IsPrintable n k c h g)
