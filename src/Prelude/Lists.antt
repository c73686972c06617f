-- ===== src/Prelude/Lists.antt =====
-- Lists measured and indexed by native numbers, under the library's names.
use Prim.Native.Nat.{ℕ, zero, suc, ◌+◌, ◌-◌, ◌≤◌}
use mathlib.Core.Path.{◌≡◌, refl, sym, ap, ◌∙◌}
use mathlib.Core.List.{List, [], ◌∷◌, ◌++◌}
use mathlib.Core.Option.{Option, none, some}
use native.Mathlib.Omega.{arith}

module _ {ℓ} {A : Type ℓ} where
  abbrev pub length : List A → ℕ
  length [] = 0
  length (x ∷ xs) = suc (length xs)

  abbrev pub get_elem? : List A → ℕ → Option A
  get_elem? [] i = none
  get_elem? (x ∷ xs) zero = some x
  get_elem? (x ∷ xs) (suc i) = get_elem? xs i

  abbrev pub get_or : List A → ℕ → A → A
  get_or [] i d = d
  get_or (x ∷ xs) zero d = x
  get_or (x ∷ xs) (suc i) d = get_or xs i d

  -- A write out of bounds changes nothing.
  abbrev pub set : List A → ℕ → A → List A
  set [] i v = []
  set (x ∷ xs) zero v = v ∷ xs
  set (x ∷ xs) (suc i) v = x ∷ set xs i v

  pub length-append : (xs ys : List A) → length (xs ++ ys) ≡ length xs + length ys
  length-append [] ys = omega arith
  length-append (x ∷ xs) ys = omega (arith, length-append xs ys)

module _ {ℓ κ} {A : Type ℓ} where
  -- Every element satisfies `P`.
  abbrev pub All : (A → Type κ) → List A → Type κ
  All P [] = Unit
  All P (x ∷ xs) = P x × All P xs

module _ {ℓ} {A : Type ℓ} where
  pub length-set : (xs : List A) (i : ℕ) (v : A) → length (set xs i v) ≡ length xs
  length-set [] i v = refl
  length-set (x ∷ xs) zero v = refl
  length-set (x ∷ xs) (suc i) v = ap suc (length-set xs i v)

module _ {ℓ} {A : Type ℓ} where
  abbrev pub drop : ℕ → List A → List A
  drop zero xs = xs
  drop (suc n) [] = []
  drop (suc n) (x ∷ xs) = drop n xs

  pub length-drop : (n : ℕ) (xs : List A) → length (drop n xs) ≡ length xs - n
  length-drop zero xs = omega arith
  length-drop (suc n) [] = omega arith
  length-drop (suc n) (x ∷ xs) = omega (arith, length-drop n xs)

module _ {ℓ} {A : Type ℓ} where
  abbrev pub take : ℕ → List A → List A
  take zero xs = []
  take (suc n) [] = []
  take (suc n) (x ∷ xs) = x ∷ take n xs

  abbrev pub replicate : ℕ → A → List A
  replicate zero x = []
  replicate (suc n) x = x ∷ replicate n x

module _ {ℓ} {A : Type ℓ} where
  pub drop-append : (xs ys : List A) (n : ℕ) → drop (length xs + n) (xs ++ ys) ≡ drop n ys
  drop-append [] ys n = ap (λ k. drop k ys) (omega arith)
  drop-append (x ∷ xs) ys n =
      let same : suc (length xs) + n ≡ suc (length xs + n) = omega arith in
      rw same (drop-append xs ys n)

  pub length-take : (n : ℕ) (xs : List A) → n ≤ length xs → length (take n xs) ≡ n
  length-take zero xs h = refl
  length-take (suc n) [] h = absurd (omega arith)
  length-take (suc n) (x ∷ xs) h = ap suc (length-take n xs (omega arith))

  pub length-replicate : (n : ℕ) (x : A) → length (replicate n x) ≡ n
  length-replicate zero x = refl
  length-replicate (suc n) x = ap suc (length-replicate n x)

module _ {ℓ} {A : Type ℓ} where
  -- A prefix of a known length is dropped or kept whole.
  pub drop-append_prefix :
      (xs ys : List A) (n k : ℕ) → length xs ≡ n → drop (n + k) (xs ++ ys) ≡ drop k ys
  drop-append_prefix xs ys n k e = rw⁻¹ e (drop-append xs ys k)

  pub take-append_prefix : (xs ys : List A) (n : ℕ) → length xs ≡ n → take n (xs ++ ys) ≡ xs
  take-append_prefix [] ys zero e = refl
  take-append_prefix [] ys (suc n) e = absurd (omega arith)
  take-append_prefix (x ∷ xs) ys zero e = absurd (omega arith)
  take-append_prefix (x ∷ xs) ys (suc n) e =
      ap (λ l. x ∷ l) (take-append_prefix xs ys n (omega arith))

  pub set-append :
      (xs : List A) (x v : A) (ys : List A) → set (xs ++ x ∷ ys) (length xs) v ≡ xs ++ v ∷ ys
  set-append [] x v ys = refl
  set-append (y ∷ xs) x v ys = ap (λ r. y ∷ r) (set-append xs x v ys)

  pub take-append : (xs ys : List A) (n : ℕ) → take (length xs + n) (xs ++ ys) ≡ xs ++ take n ys
  take-append [] ys n = ap (λ k. take k ys) (omega arith)
  take-append (x ∷ xs) ys n =
      let same : suc (length xs) + n ≡ suc (length xs + n) = omega arith in
      rw same (ap (λ l. x ∷ l) (take-append xs ys n))

  drop-empty : (n : ℕ) → drop {A = A} n [] ≡ []
  drop-empty zero = refl
  drop-empty (suc n) = refl

  pub drop-drop : (m n : ℕ) (xs : List A) → drop n (drop m xs) ≡ drop (m + n) xs
  drop-drop zero n xs = ap (λ k. drop k xs) (omega arith)
  drop-drop (suc m) n [] = drop-empty n ∙ sym (drop-empty (suc m + n))
  drop-drop (suc m) n (x ∷ xs) =
      let same : suc m + n ≡ suc (m + n) = omega arith in rw same (drop-drop m n xs)
