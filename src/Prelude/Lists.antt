-- ===== src/Prelude/Lists.antt =====
-- Lists with Boolean tests and native lengths.
use Prim.Native.Nat.{ℕ, zero, suc, ◌+◌, ◌≤◌}
use mathlib.Core.Path.{◌≡◌, refl, sym, ap, subst}
use mathlib.Core.Logic.{◌≢◌, ◌↔◌, ◌⊎◌, inl, inr}
use agentic_warden.Prelude.Tests.{Bool-cases}
use mathlib.Core.Bool.{Bool, true, false, ◌||◌}
use mathlib.Core.Option.{Option, none, some}
use mathlib.Core.List.{List, [], ◌∷◌, ◌++◌, reverse, reverse-cons, map}
use native.Mathlib.Omega.{arith}
use agentic_warden.Prelude.Tests.{if◌then◌else◌, Equality, ◌==◌}

module _ {ℓ} {A : Type ℓ} where
  abbrev pub length : List A → ℕ
  length [] = 0
  length (x ∷ xs) = suc (length xs)

  pub length-append : (xs ys : List A) → length (xs ++ ys) ≡ length xs + length ys
  length-append [] ys = omega arith
  length-append (x ∷ xs) ys = omega (arith, length-append xs ys)

  -- `Array.prototype.find`
  abbrev pub find? : (A → Bool) → List A → Option A
  find? p [] = none
  find? p (x ∷ xs) = if p x then some x else find? p xs

  -- `Array.prototype.filter`
  abbrev pub filter : (A → Bool) → List A → List A
  filter p [] = []
  filter p (x ∷ xs) = let rest = filter p xs in if p x then x ∷ rest else rest

  abbrev pub is_empty : List A → Bool
  is_empty [] = true
  is_empty (x ∷ xs) = false

  -- `xs[0]`
  abbrev pub first? : List A → Option A
  first? [] = none
  first? (x ∷ xs) = some x

  -- `xs.at(-1)`, `xs.pop()`
  abbrev pub last? : List A → Option A
  last? [] = none
  last? (x ∷ []) = some x
  last? (x ∷ y ∷ xs) = last? (y ∷ xs)

  -- `Array.prototype.includes`, `Set.prototype.has`
  abbrev pub contains : ⦃q : Equality A⦄ → List A → A → Bool
  contains [] a = false
  contains (x ∷ xs) a = x == a || contains xs a

-- A predicate of every item.
module _ {ℓ κ} {A : Type ℓ} (P : A → Type κ) where
  abbrev pub All : List A → Type κ
  All [] = Unit
  All (x ∷ xs) = P x × All xs

  pub All-append : (xs ys : List A) → All xs → All ys → All (xs ++ ys)
  All-append [] ys _ k = k
  All-append (x ∷ xs) ys (p, h) k = (p, All-append xs ys h k)

  pub All-reverse : (xs : List A) → All xs → All (reverse xs)
  All-reverse [] _ = tt
  All-reverse (x ∷ xs) (p, h) =
      rw (reverse-cons x xs) (All-append (reverse xs) (x ∷ []) (All-reverse xs h) (p, tt))

-- What `find` returns stands behind items that fail the test; without a result all fail.
module _ {ℓ} {A : Type ℓ} (p : A → Bool) where
  pub find?-some :
      (xs : List A) (x : A)
      → find? p xs ≡ some x
      → (before after : List A) × (xs ≡ before ++ x ∷ after)
        × All (λ y. p y ≡ false) before
        × (p x ≡ true)
  find?-some [] x h = cc
  find?-some (y ∷ ys) x h = elim (Bool-cases (p y)) [
    | inl hit ↦ ([], ys, ground arith, tt, ground arith)
    | inr miss ↦
        let (before, after, e, fails, good) = find?-some ys x (ground arith) in
        (y ∷ before, after, ap (λ t. y ∷ t) e, (miss, fails), good)
  ]

  pub find?-none : (xs : List A) → find? p xs ≡ none → All (λ y. p y ≡ false) xs
  find?-none [] h = tt
  find?-none (y ∷ ys) h = elim (Bool-cases (p y)) [
    | inl hit ↦ absurd (ground arith)
    | inr miss ↦ (miss, find?-none ys (ground arith))
  ]

-- An item stands somewhere in a list.
module _ {A : Type 0} where
  abbrev pub Occurs : A → List A → Type 0
  Occurs a [] = ⊥
  Occurs a (x ∷ xs) = (a ≡ x) ⊎ Occurs a xs

  pub Occurs-All : (P : A → Type 0) (a : A) (xs : List A) → Occurs a xs → All P xs → P a
  Occurs-All P a (x ∷ xs) (inl same) (p, h) = subst P (sym same) p
  Occurs-All P a (x ∷ xs) (inr o) (p, h) = Occurs-All P a xs o h
  Occurs-All P a [] o h = absurd o

  pub Occurs-append : (a : A) (xs ys : List A) → Occurs a (xs ++ ys) ↔ (Occurs a xs ⊎ Occurs a ys)
  Occurs-append a [] ys = (λ o. inr o, λ o. elim o [ inl l ↦ absurd l | inr r ↦ r ])
  Occurs-append a (x ∷ xs) ys =
      let (down, up) = Occurs-append a xs ys in
      (
        λ o. elim o [
          | inl e ↦ inl (inl e)
          | inr r ↦ elim (down r) [ inl l ↦ inl (inr l) | inr k ↦ inr k ]
        ],
        λ o. elim o [
          | inl (inl e) ↦ inl e
          | inl (inr l) ↦ inr (up (inl l))
          | inr r ↦ inr (up (inr r))
        ],
      )

  pub Occurs-filter :
      (p : A → Bool) (a : A) (xs : List A) → Occurs a xs → p a ≡ true → Occurs a (filter p xs)
  Occurs-filter p a (x ∷ xs) (inl e) h = ground arith
  Occurs-filter p a (x ∷ xs) (inr o) h = elim (Bool-cases (p x)) [
    | inl keep ↦ rw keep (inr (Occurs-filter p a xs o h))
    | inr drop ↦ rw drop (Occurs-filter p a xs o h)
  ]
  Occurs-filter p a [] o h = absurd o

  pub find?-Occurs :
      (p : A → Bool) (xs : List A) (x : A) → find? p xs ≡ some x → Occurs x xs × (p x ≡ true)
  find?-Occurs p [] x h = cc
  find?-Occurs p (y ∷ ys) x h = elim (Bool-cases (p y)) [
    | inl hit ↦ (inl (ground arith), ground arith)
    | inr miss ↦ let (o, good) = find?-Occurs p ys x (ground arith) in (inr o, good)
  ]

-- A list with an item that passes has a first one.
pub find?-hit :
    {A : Type 0} (p : A → Bool) (x : A) (xs : List A)
    → Occurs x xs
    → p x ≡ true
    → (y : A) × (find? p xs ≡ some y)
find?-hit p x [] o h = absurd o
find?-hit p x (z ∷ zs) o h = elim (Bool-cases (p z)) [
  | inl hit ↦ (z, rw hit refl)
  | inr miss ↦ elim o [
    | inl same ↦ absurd (cc (miss, ap p same, h))
    | inr there ↦ let (y, found) = find?-hit p x zs there h in (y, rw miss found)
  ]
]

pub Occurs-map :
    {A B : Type 0} (f : A → B) (a : A) (xs : List A) → Occurs a xs → Occurs (f a) (map f xs)
Occurs-map f a [] o = absurd o
Occurs-map f a (x ∷ xs) (inl e) = inl (ap f e)
Occurs-map f a (x ∷ xs) (inr o) = inr (Occurs-map f a xs o)

module _ {ℓ} {A : Type ℓ} where
  abbrev pub take : ℕ → List A → List A
  take zero xs = []
  take (suc n) [] = []
  take (suc n) (x ∷ xs) = x ∷ take n xs

  abbrev pub drop : ℕ → List A → List A
  drop zero xs = xs
  drop (suc n) [] = []
  drop (suc n) (x ∷ xs) = drop n xs

  pub take-drop : (n : ℕ) (xs : List A) → take n xs ++ drop n xs ≡ xs
  take-drop zero xs = refl
  take-drop (suc n) [] = refl
  take-drop (suc n) (x ∷ xs) = ap (λ t. x ∷ t) (take-drop n xs)

  pub take_add : (m n k : ℕ) (xs : List A) → k ≡ m + n → take k xs ≡ take m xs ++ take n (drop m xs)
  take_add zero n k xs e = ap (λ i. take i xs) (omega (arith, e))
  take_add (suc m) n zero xs e = absurd (omega (arith, e))
  take_add (suc m) zero (suc k) [] e = refl
  take_add (suc m) (suc n) (suc k) [] e = refl
  take_add (suc m) n (suc k) (x ∷ xs) e = ap (λ t. x ∷ t) (take_add m n k xs (omega (arith, e)))

  -- A list that is shorter than what is taken is taken whole.
  pub take_short : (m k : ℕ) (xs : List A) → length (take m xs) ≢ m → m ≤ k → take k xs ≡ take m xs
  take_short zero k xs h le = absurd (h refl)
  take_short (suc m) zero xs h le = absurd (omega (arith, le))
  take_short (suc m) (suc k) [] h le = refl
  take_short (suc m) (suc k) (x ∷ xs) h le =
      ap (λ t. x ∷ t) (take_short m k xs (λ e. h (ap suc e)) (omega (arith, le)))

  pub last?-append :
      (n : ℕ) (xs : List A)
      → length xs ≡ suc n
      → (front : List A) × (x : A) × (xs ≡ front ++ x ∷ []) × (last? xs ≡ some x)
  last?-append n [] h = absurd (omega (arith, h))
  last?-append n (x ∷ []) h = ([], x, refl, refl)
  last?-append zero (x ∷ y ∷ xs) h = absurd (omega (arith, h))
  last?-append (suc n) (x ∷ y ∷ xs) h =
      let (front, z, e, l) = last?-append n (y ∷ xs) (omega (arith, h)) in
      (x ∷ front, z, ap (λ t. x ∷ t) e, l)

-- What stands in a mapped list is the image of something that stands in the list.
pub Occurs-map_inverse :
    {A B : Type 0} (f : A → B) (b : B) (xs : List A)
    → Occurs b (map f xs)
    → (a : A) × Occurs a xs × (b ≡ f a)
Occurs-map_inverse f b [] o = absurd o
Occurs-map_inverse f b (x ∷ xs) (inl e) = (x, inl refl, e)
Occurs-map_inverse f b (x ∷ xs) (inr o) =
    let (a, there, e) = Occurs-map_inverse f b xs o in (a, inr there, e)
