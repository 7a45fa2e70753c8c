-- ===== src/Prelude/Arrays.antt =====
-- A C array is a function of its index; a write changes it at one index.
use Prim.Native.Nat.{ℕ, zero, suc, ◌+◌, ◌≤◌, ◌<◌}
use mathlib.Core.Path.{◌≡◌, refl, sym, ap, ◌∙◌}
use mathlib.Core.Logic.{◌≢◌, inl, inr}
use mathlib.Core.Bool.{false≢true}
use mathlib.Core.Option.{Option, none, some}
use mathlib.Core.List.{List, [], ◌∷◌, ◌++◌}
use native.Mathlib.Nat.{add-zero}
use native.Mathlib.Omega.{arith}
use turmite_linux.Prelude.Tests.{◌==◌, if◌then◌else◌, ==_iff, Bool-cases}

module _ {ℓ} {A : Type ℓ} where
  abbrev pub update : (ℕ → A) → ℕ → A → ℕ → A
  update f i v j = if i == j then v else f j

  pub update_self : (f : ℕ → A) (i : ℕ) (v : A) → update f i v i ≡ v
  update_self f i v = ground arith

  pub update_ne : (f : ℕ → A) (i j : ℕ) (v : A) → i ≢ j → update f i v j ≡ f j
  update_ne f i j v h = ground arith

  -- The initialiser of an array: the elements given, and `d` beyond them.
  abbrev pub get_or : List A → ℕ → A → A
  get_or [] i d = d
  get_or (x ∷ xs) zero d = x
  get_or (x ∷ xs) (suc i) d = get_or xs i d

  abbrev pub get_elem? : List A → ℕ → Option A
  get_elem? [] i = none
  get_elem? (x ∷ xs) zero = some x
  get_elem? (x ∷ xs) (suc i) = get_elem? xs i

  abbrev pub length : List A → ℕ
  length [] = 0
  length (x ∷ xs) = suc (length xs)

  pub length-append : (xs ys : List A) → length (xs ++ ys) ≡ length xs + length ys
  length-append [] ys = omega arith
  length-append (x ∷ xs) ys = omega (arith, length-append xs ys)

  pub get_elem?-lt : (xs : List A) (i : ℕ) → i < length xs → (a : A) × (get_elem? xs i ≡ some a)
  get_elem?-lt [] i h = absurd (omega arith)
  get_elem?-lt (x ∷ xs) zero h = (x, refl)
  get_elem?-lt (x ∷ xs) (suc i) h = get_elem?-lt xs i (omega arith)

-- What holds of the value written and of the old element holds after the write.
pub update_both {ℓ κ} :
    {A : Type ℓ} (P : A → Type κ) (f : ℕ → A) (i j : ℕ) (v : A)
    → (i ≡ j → P v)
    → (i ≢ j → P (f j))
    → P (update f i v j)
update_both P f i j v new old = elim (Bool-cases (i == j)) [
  | inl e ↦ rw e (new ((==_iff i j).0 e))
  | inr e ↦ rw e (old (λ q. false≢true (sym e ∙ (==_iff i j).1 q)))
]

-- The list of the values of a function at the `n` numbers from `k` on.
abbrev pub rows {ℓ} : {A : Type ℓ} → ℕ → ℕ → (ℕ → A) → List A
rows zero k row = []
rows (suc n) k row = row k ∷ rows n (suc k) row

module _ {ℓ} {A : Type ℓ} where
  pub rows_last : (n k : ℕ) (f : ℕ → A) → rows (suc n) k f ≡ rows n k f ++ f (k + n) ∷ []
  rows_last zero k f = rw (add-zero k) refl
  rows_last (suc n) k f =
      let e : suc k + n ≡ k + suc n = omega arith in
      ap (◌∷◌ (f k)) (rows_last n (suc k) f ∙ ap (λ m. rows n (suc k) f ++ f m ∷ []) e)

  pub rows-ext :
      (n k : ℕ) (f g : ℕ → A) → ((i : ℕ) → k ≤ i → i < k + n → f i ≡ g i) → rows n k f ≡ rows n k g
  rows-ext zero k f g same = refl
  rows-ext (suc n) k f g same =
      rw (same k (omega arith) (omega arith))
        (ap (◌∷◌ (g k)) (rows-ext n (suc k) f g (λ i low high. same i (omega arith) (omega arith))))

  pub rows_shift : (n k : ℕ) (f : ℕ → A) → rows n (suc k) f ≡ rows n k (λ i. f (suc i))
  rows_shift zero k f = refl
  rows_shift (suc n) k f = ap (◌∷◌ (f (suc k))) (rows_shift n (suc k) f)
