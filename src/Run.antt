-- ===== src/Run.antt =====
-- Outcomes of code that may throw.
use l4rdma.Prelude.{
  if◌then◌else◌, Option, none, some, ℕ, ◌+◌, ◌≤◌, ◌<◌, ◌≡◌, refl, ap, ◌⊎◌, inl, inr, Bool, true,
  false, List, [], ◌∷◌, length, ltb, Bool-cases, arith,
}

pub data Error : Type 0 where
  init_timeout cmd_timeout : Error
  cqe_error cod_error : ℕ → Error
  l4_error issi_unsupported eq_too_large eqc_error : Error
  -- `throw;` outside a handler ends the program
  terminated : Error
  -- a read or write through a null, freed or foreign pointer
  fault : Error

-- `out_of_fuel` is no outcome of the source: it says that a loop was cut short.
pub data Run {ℓ} (X : Type ℓ) : Type ℓ where
  throw : Error → Run X
  out_of_fuel : Run X
  ok : X → Run X

infixl 5 ◌>>=◌ ◌>>◌
abbrev pub ◌>>=◌ {ℓ κ} : {X : Type ℓ} {Y : Type κ} → Run X → (X → Run Y) → Run Y
throw error >>= next = throw error
out_of_fuel >>= next = out_of_fuel
ok x >>= next = next x

abbrev pub ◌>>◌ {κ} : {Y : Type κ} → Run (Unit {0}) → Run Y → Run Y
first >> second = first >>= λ _. second

abbrev pub is_ok {ℓ} : {X : Type ℓ} → Run X → Bool
is_ok (throw error) = false
is_ok out_of_fuel = false
is_ok (ok x) = true

-- What `L4Re::chksys` makes of a call.
abbrev pub chksys {ℓ} : {A : Type ℓ} → Option A → Run A
chksys none = throw l4_error
chksys (some x) = ok x

-- The code does not get past this point.
abbrev pub Fails {ℓ} : {X : Type ℓ} → Run X → Type 0
Fails r = is_ok r ≡ false

pub Fails-bind {ℓ κ} :
    {X : Type ℓ} {Y : Type κ} (r : Run X) (next : X → Run Y)
    → ((x : X) → Fails (next x))
    → Fails (r >>= next)
Fails-bind (throw error) next later = refl
Fails-bind out_of_fuel next later = refl
Fails-bind (ok x) next later = later x

pub Fails-first {ℓ κ} :
    {X : Type ℓ} {Y : Type κ} (r : Run X) (next : X → Run Y) → Fails r → Fails (r >>= next)
Fails-first (throw error) next first = refl
Fails-first out_of_fuel next first = refl
Fails-first (ok x) next first = cc

-- Both fail, in the same way.
abbrev pub FailsAs {ℓ κ} : {X : Type ℓ} {Y : Type κ} → Run X → Run Y → Type 0
FailsAs (throw e) (throw f) = e ≡ f
FailsAs out_of_fuel out_of_fuel = Unit {0}
FailsAs r r' = ⊥

pub FailsAs-bind {ℓ κ} :
    {X : Type ℓ} {Y : Type κ} (r : Run X) (next : X → Run Y) → Fails r → FailsAs (r >>= next) r
FailsAs-bind (throw error) next fails = refl
FailsAs-bind out_of_fuel next fails = tt
FailsAs-bind (ok x) next fails = cc

pub FailsAs-same {ℓ} : {X : Type ℓ} (r : Run X) → Fails r → FailsAs r r
FailsAs-same (throw error) fails = refl
FailsAs-same out_of_fuel fails = tt
FailsAs-same (ok x) fails = cc

pub Run-cases {ℓ} : {X : Type ℓ} (r : Run X) → Fails r ⊎ ((x : X) × (r ≡ ok x))
Run-cases (throw error) = inl refl
Run-cases out_of_fuel = inl refl
Run-cases (ok x) = inr (x, refl)

pub FailsAs-first {ℓ κ μ} :
    {X : Type ℓ} {Y : Type κ} {Z : Type μ} (r : Run X) (next : X → Run Y) (r' : Run Z)
    → FailsAs r r'
    → FailsAs (r >>= next) r'
FailsAs-first (throw e) next (throw f) same = same
FailsAs-first (throw e) next out_of_fuel same = same
FailsAs-first (throw e) next (ok x) same = same
FailsAs-first out_of_fuel next (throw f) same = same
FailsAs-first out_of_fuel next out_of_fuel same = same
FailsAs-first out_of_fuel next (ok x) same = same
FailsAs-first (ok y) next (throw f) same = absurd same
FailsAs-first (ok y) next out_of_fuel same = absurd same
FailsAs-first (ok y) next (ok x) same = absurd same

abbrev pub ok_or {ℓ} : {X : Type ℓ} → X → Run X → X
ok_or z (throw error) = z
ok_or z out_of_fuel = z
ok_or z (ok x) = x

pub ok-injective {ℓ} : {X : Type ℓ} (x y : X) → ok x ≡ ok y → x ≡ y
ok-injective x y same = ap (ok_or x) same

-- What fails as something else does not succeed.
pub FailsAs-ok {ℓ κ} :
    {X : Type ℓ} {Y : Type κ} (r : Run X) (r' : Run Y) (x : X) → FailsAs r r' → r ≡ ok x → ⊥
FailsAs-ok (throw e) r' x same gives = cc
FailsAs-ok out_of_fuel r' x same gives = cc
FailsAs-ok (ok y) (throw f) x same gives = same
FailsAs-ok (ok y) out_of_fuel x same gives = same
FailsAs-ok (ok y) (ok z) x same gives = same

pub Fails-ok {ℓ} : {X : Type ℓ} (r : Run X) (x : X) → Fails r → r ≡ ok x → ⊥
Fails-ok (throw e) x fails gives = cc
Fails-ok out_of_fuel x fails gives = cc
Fails-ok (ok y) x fails gives = cc

-- What a chain of calls that returns says of its parts.
pub bind-ok {ℓ κ} :
    {X : Type ℓ} {Y : Type κ} (r : Run X) (next : X → Run Y) (y : Y)
    → (r >>= next) ≡ ok y
    → (x : X) × (r ≡ ok x) × (next x ≡ ok y)
bind-ok (throw e) next y gives = cc
bind-ok out_of_fuel next y gives = cc
bind-ok (ok x) next y gives = (x, refl, gives)

-- The same, for what is to be shown of the result.
pub bind-ok_then {ℓ κ μ} :
    {X : Type ℓ} {Y : Type κ} {C : Type μ} (r : Run X) (next : X → Run Y) (y : Y)
    → (r >>= next) ≡ ok y
    → ((x : X) → r ≡ ok x → next x ≡ ok y → C)
    → C
bind-ok_then (throw e) next y gives show = cc
bind-ok_then out_of_fuel next y gives show = cc
bind-ok_then (ok x) next y gives show = show x refl gives

pub then-ok {ℓ} :
    {X : Type ℓ} (b : Bool) (e : Error) (r : Run X) (x : X)
    → (if b then r else throw e) ≡ ok x
    → r ≡ ok x
then-ok true e r x gives = gives
then-ok false e r x gives = cc

pub else-ok {ℓ} :
    {X : Type ℓ} (b : Bool) (e : Error) (r : Run X) (x : X)
    → (if b then throw e else r) ≡ ok x
    → r ≡ ok x
else-ok true e r x gives = cc
else-ok false e r x gives = gives

-- Words stored one after the other into an array with room for so many, from index `i` on; a store
-- behind its end is a fault. What is left are the words that were stored.
unfoldable pub store_words : (room i : ℕ) → List ℕ → Run (List ℕ)
store_words room i [] = ok []
store_words room i (w ∷ ws) = do
  (if ltb i room then ok tt else throw fault)
  stored ← store_words room (i + 1) ws
  ok (w ∷ stored)

pub store_words-ok :
    (room i : ℕ) (ws : List ℕ) → i + length ws ≤ room → store_words room i ws ≡ ok ws
unfolding store_words
store_words-ok room i [] fits = refl
store_words-ok room i (w ∷ ws) fits =
    let inside : ltb i room ≡ true = ground arith in
    rw (inside, ◌>>=◌, store_words-ok room (i + 1) ws (omega arith), ◌>>=◌) refl

-- Words that go beyond the end of the array are not all stored.
pub store_words-Fails :
    (room i : ℕ) (ws : List ℕ) → i ≤ room → room < i + length ws → Fails (store_words room i ws)
unfolding store_words
store_words-Fails room i [] from long = absurd (omega arith)
store_words-Fails room i (w ∷ ws) from long = elim (Bool-cases (ltb i room)) [
  | inl inside ↦
      rw (inside, ◌>>=◌)
        (Fails-first (store_words room (i + 1) ws) _
          (store_words-Fails room (i + 1) ws (ground arith) (omega arith)))
  | inr outside ↦ rw outside refl
]
