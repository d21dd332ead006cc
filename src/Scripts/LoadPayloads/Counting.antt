-- ===== src/Scripts/LoadPayloads/Counting.antt =====
-- `collections.Counter`, as its items in the order of their first occurrence.
use gex_test_jonatha.Prelude.{ℕ, ◌+◌, ◌≡◌, Bool, List, [], ◌∷◌, eqb, if◌then◌else◌, arith}

abbrev pub Counter : Type 0 → Type 0
Counter K = List (K × ℕ)

module _ {K : Type 0} (same : K → K → Bool) where
  -- `c[k] += n`
  unfoldable pub add : ℕ → K → Counter K → Counter K
  add n k [] = (k, n) ∷ []
  add n k ((j, m) ∷ c) = let rest = add n k c in if same j k then (j, m + n) ∷ c else (j, m) ∷ rest

  -- `Counter(ks)`, from what is counted already
  unfoldable pub counted : Counter K → List K → Counter K
  unfolding add
  counted c [] = c
  counted c (k ∷ ks) = counted (add 1 k c) ks

  -- `c.update(d)`
  unfoldable pub update : Counter K → Counter K → Counter K
  unfolding add
  update c [] = c
  update c ((k, n) ∷ d) = update (add n k c) d

  -- `c.get(k, 0)`
  abbrev pub value_of : K → Counter K → ℕ
  value_of k [] = 0
  value_of k ((j, m) ∷ c) = if same j k then m else value_of k c

-- `sum(c.values())`
abbrev pub total : {K : Type 0} → Counter K → ℕ
total [] = 0
total ((k, n) ∷ c) = n + total c

-- how often a code occurs
abbrev pub occurrences : ℕ → List ℕ → ℕ
occurrences k [] = 0
occurrences k (j ∷ ks) = (if eqb j k then 1 else 0) + occurrences k ks

abbrev pub size : {K : Type 0} → List K → ℕ
size [] = 0
size (k ∷ ks) = 1 + size ks

module _ {K : Type 0} (same : K → K → Bool) where
  total-add : (n : ℕ) (k : K) (c : Counter K) → total (add same n k c) ≡ total c + n
  unfolding add
  total-add n k [] = omega arith
  total-add n k ((j, m) ∷ c) = ground (arith, total-add n k c)

  total-counted : (c : Counter K) (ks : List K) → total (counted same c ks) ≡ total c + size ks
  unfolding counted
  total-counted c [] = omega arith
  total-counted c (k ∷ ks) = omega (arith, total-add 1 k c, total-counted (add same 1 k c) ks)

  total-update : (c d : Counter K) → total (update same c d) ≡ total c + total d
  unfolding update
  total-update c [] = omega arith
  total-update c ((k, n) ∷ d) = omega (arith, total-add n k c, total-update (add same n k c) d)

  -- A run's counter, added to the totals, adds one for each request.
  pub total-update-counted :
      (c : Counter K) (ks : List K) → total (update same c (counted same [] ks)) ≡ total c + size ks
  total-update-counted c ks =
      omega (arith, total-update c (counted same [] ks), total-counted [] ks)

value_of-add :
    (i n k : ℕ) (c : Counter ℕ)
    → value_of eqb i (add eqb n k c) ≡ value_of eqb i c + (if eqb k i then n else 0)
unfolding add
value_of-add i n k [] = ground arith
value_of-add i n k ((j, m) ∷ c) = ground (arith, value_of-add i n k c)

-- Each code once: the items of a counter.
abbrev amounts : ℕ → Counter ℕ → ℕ
amounts i [] = 0
amounts i ((k, n) ∷ c) = (if eqb k i then n else 0) + amounts i c

value_of-update :
    (i : ℕ) (c d : Counter ℕ) → value_of eqb i (update eqb c d) ≡ value_of eqb i c + amounts i d
unfolding update
value_of-update i c [] = omega arith
value_of-update i c ((k, n) ∷ d) =
    ground (arith, value_of-add i n k c, value_of-update i (add eqb n k c) d)

amounts-add :
    (i n k : ℕ) (c : Counter ℕ)
    → amounts i (add eqb n k c) ≡ amounts i c + (if eqb k i then n else 0)
unfolding add
amounts-add i n k [] = ground arith
amounts-add i n k ((j, m) ∷ c) = ground (arith, amounts-add i n k c)

amounts-counted :
    (i : ℕ) (c : Counter ℕ) (ks : List ℕ)
    → amounts i (counted eqb c ks) ≡ amounts i c + occurrences i ks
unfolding counted
amounts-counted i c [] = omega arith
amounts-counted i c (k ∷ ks) =
    ground (arith, amounts-add i 1 k c, amounts-counted i (add eqb 1 k c) ks)

-- A run's counter, added to the totals, adds the occurrences of each code.
pub value_of-update-counted :
    (i : ℕ) (c : Counter ℕ) (ks : List ℕ)
    → value_of eqb i (update eqb c (counted eqb [] ks)) ≡ value_of eqb i c + occurrences i ks
value_of-update-counted i c ks =
    omega (arith, value_of-update i c (counted eqb [] ks), amounts-counted i [] ks)
