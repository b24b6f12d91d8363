-- ===== src/Console/Groups/Order.antt =====
-- The table of groups as a view that forgets in which order users and groups are listed.
use agentic_warden.Prelude.{
  ℕ, zero, suc, ◌<◌, Bool, true, false, Option, List, [], ◌∷◌, Text, text_eq, nat_eq, ◌==◌, ==_iff,
  ==_refl, Bool-cases, All, get_or, ◌≡◌, inl, inr, refl, sym, ap, ◌∙◌, subst, arith,
}
use agentic_warden.Console.Groups.{insert_count, sort_counts, tally, group_counts}
use agentic_warden.Console.Groups.Counts.{entries_of, entry, count_all, group_counts-entries}

-- What `localeCompare` promises: it is a comparison, under which some texts may be equal.
pub record IsComparison (after : Text → Text → Bool) : Type 0 where
  pub asym : (a b : Text) → after a b ≡ true → after b a ≡ false
  pub trans : (a b c : Text) → after a b ≡ false → after b c ≡ false → after a c ≡ false

module _ (after : Text → Text → Bool) where
  -- No entry comes after a later one.
  abbrev IsSorted : List (Text × ℕ) → Type 0
  IsSorted [] = Unit
  IsSorted (x ∷ xs) = All (λ y. after x.0 y.0 ≡ false) xs × IsSorted xs

  All-insert_count :
      (k : Text) (x : Text × ℕ) (ys : List (Text × ℕ))
      → after k x.0 ≡ false
      → All (λ y. after k y.0 ≡ false) ys
      → All (λ y. after k y.0 ≡ false) (insert_count after x ys)
  unfolding insert_count
  All-insert_count k x [] h a = (h, tt)
  All-insert_count k x (y ∷ ys) h (p, a) = elim (Bool-cases (after x.0 y.0)) [
    | inl e ↦ rw (e) (p, All-insert_count k x ys h a)
    | inr e ↦ rw (e) (h, (p, a))
  ]

  All-trans :
      (c : IsComparison after) (a b : Text) (ys : List (Text × ℕ))
      → after a b ≡ false
      → All (λ y. after b y.0 ≡ false) ys
      → All (λ y. after a y.0 ≡ false) ys
  All-trans c a b [] h k = tt
  All-trans c a b (y ∷ ys) h (p, k) = (c.trans a b y.0 h p, All-trans c a b ys h k)

  insert_count-IsSorted :
      (c : IsComparison after) (x : Text × ℕ) (ys : List (Text × ℕ))
      → IsSorted ys
      → IsSorted (insert_count after x ys)
  unfolding insert_count
  insert_count-IsSorted c x [] h = (tt, tt)
  insert_count-IsSorted c x (y ∷ ys) (a, h) = elim (Bool-cases (after x.0 y.0)) [
    | inl e ↦
        rw (e) (All-insert_count y.0 x ys (c.asym x.0 y.0 e) a, insert_count-IsSorted c x ys h)
    | inr e ↦ rw (e) ((e, All-trans c x.0 y.0 ys e a), (a, h))
  ]

  sort_counts-IsSorted :
      (c : IsComparison after) (xs : List (Text × ℕ)) → IsSorted (sort_counts after xs)
  unfolding sort_counts
  sort_counts-IsSorted c [] = tt
  sort_counts-IsSorted c (x ∷ xs) =
      insert_count-IsSorted c x (sort_counts after xs) (sort_counts-IsSorted c xs)

  -- An entry that is found stands under what holds of all.
  after_entry :
      (k g : Text) (e : Text × ℕ) (es xs : List (Text × ℕ))
      → entries_of g xs ≡ e ∷ es
      → All (λ y. after k y.0 ≡ false) xs
      → after k g ≡ false
  after_entry k g e es [] h a = cc
  after_entry k g e es (x ∷ xs) h (p, a) = elim (Bool-cases (x.0 == g)) [
    | inl hit ↦ subst (λ t. after k t ≡ false) ((==_iff x.0 g).0 hit) p
    | inr miss ↦ after_entry k g e es xs (ground arith) a
  ]

  entries-hit :
      (x : Text × ℕ) (xs : List (Text × ℕ)) → entries_of x.0 (x ∷ xs) ≡ x ∷ entries_of x.0 xs
  entries-hit x xs = rw (==_refl x.0) refl

  -- The tails agree where the lists do and the heads are the same.
  entries-tail :
      (g : Text) (x : Text × ℕ) (xs ys : List (Text × ℕ))
      → entries_of g (x ∷ xs) ≡ entries_of g (x ∷ ys)
      → entries_of g xs ≡ entries_of g ys
  entries-tail g x xs ys h = ground arith

  abbrev Has : Text → List (Text × ℕ) → Type 0
  Has g xs = (e : Text × ℕ) × (es : List (Text × ℕ)) × (entries_of g xs ≡ e ∷ es)

  Has-cons : (g : Text) (x : Text × ℕ) (xs : List (Text × ℕ)) → Has g xs → Has g (x ∷ xs)
  Has-cons g x xs (e, es, h) = elim (Bool-cases (x.0 == g)) [
    | inl hit ↦ (x, entries_of g xs, rw (hit) refl)
    | inr miss ↦ (e, es, rw (miss) h)
  ]

  -- The first of two lists with the same entries does not start after what the second starts with.
  after_head :
      (x y : Text × ℕ) (xs ys : List (Text × ℕ))
      → (x.0 == y.0) ≡ false
      → All (λ z. after x.0 z.0 ≡ false) xs
      → entries_of y.0 (x ∷ xs) ≡ entries_of y.0 (y ∷ ys)
      → after x.0 y.0 ≡ false
  after_head x y xs ys miss a e =
      after_entry x.0 y.0 y (entries_of y.0 ys) xs (sym (dropped miss) ∙ e ∙ entries-hit y ys) a
    where
      dropped : (x.0 == y.0) ≡ false → entries_of y.0 (x ∷ xs) ≡ entries_of y.0 xs
      dropped off = rw (off) refl

  same_head :
      (x y : Text × ℕ) (xs ys : List (Text × ℕ))
      → ((a b : Text)
          → Has a (x ∷ xs)
          → Has b (x ∷ xs)
          → after a b ≡ false
          → after b a ≡ false
          → a ≡ b)
      → All (λ z. after x.0 z.0 ≡ false) xs
      → All (λ z. after y.0 z.0 ≡ false) ys
      → ((g : Text) → entries_of g (x ∷ xs) ≡ entries_of g (y ∷ ys))
      → x.0 ≡ y.0
  same_head x y xs ys d a b e = elim (Bool-cases (x.0 == y.0)) [
    | inl same ↦ (==_iff x.0 y.0).0 same
    | inr other ↦
        let swapped : (y.0 == x.0) ≡ false = ground (arith, ==_iff x.0 y.0, ==_iff y.0 x.0) in
        d x.0 y.0 (x, entries_of x.0 xs, entries-hit x xs)
          (y, entries_of y.0 ys, e y.0 ∙ entries-hit y ys) (after_head x y xs ys other a (e y.0))
          (after_head y x ys xs swapped b (sym (e x.0)))
  ]

  -- Two sorted lists with the same entries are the same list, if no two of their groups compare as
  -- equal.
  sorted_unique :
      (xs ys : List (Text × ℕ))
      → ((a b : Text) → Has a xs → Has b xs → after a b ≡ false → after b a ≡ false → a ≡ b)
      → IsSorted xs
      → IsSorted ys
      → ((g : Text) → entries_of g xs ≡ entries_of g ys)
      → xs ≡ ys
  sorted_unique [] [] d h k e = refl
  sorted_unique [] (y ∷ ys) d h k e = absurd (cc (e y.0, entries-hit y ys))
  sorted_unique (x ∷ xs) [] d h k e = absurd (cc (e x.0, entries-hit x xs))
  sorted_unique (x ∷ xs) (y ∷ ys) d (a, h) (b, k) e =
      let key = same_head x y xs ys d a b e in
      let heads : x ∷ entries_of x.0 xs ≡ y ∷ entries_of y.0 ys =
        sym (entries-hit x xs)
        ∙ e x.0
        ∙ subst (λ g. entries_of g (y ∷ ys) ≡ y ∷ entries_of y.0 ys) (sym key) (entries-hit y ys) in
      let same : x ≡ y = cc in
      let rest =
        sorted_unique xs ys (λ p q hp hq. d p q (Has-cons p x xs hp) (Has-cons q x xs hq)) h k
          (λ g. entries-tail g x xs ys (e g ∙ ap (λ z. entries_of g (z ∷ ys)) (sym same))) in
      ap (λ z. z ∷ xs) same ∙ ap (λ zs. y ∷ zs) rest

  -- The table does not depend on the order in which the users, and the groups of a user, are listed,
  -- nor on how the groups are spread over the users: two snapshots in which each group occurs as often
  -- have the same table. This takes a comparison under which no two of the listed groups are equal.
  pub group_counts-order :
      (ms ms' : Option (List (Text × List Text)))
      → IsComparison after
      → ((a b : Text)
          → 0 < count_all a (get_or ms [])
          → 0 < count_all b (get_or ms [])
          → after a b ≡ false
          → after b a ≡ false
          → a ≡ b)
      → ((g : Text) → count_all g (get_or ms []) ≡ count_all g (get_or ms' []))
      → group_counts after ms ≡ group_counts after ms'
  unfolding group_counts
  group_counts-order ms ms' c apart same =
      sorted_unique (group_counts after ms) (group_counts after ms')
        (λ a b ha hb. apart a b (listed a ha) (listed b hb))
        (sort_counts-IsSorted c (tally (get_or ms []) []))
        (sort_counts-IsSorted c (tally (get_or ms' []) []))
        (λ g.
          group_counts-entries after ms g
          ∙ ap (entry g) (same g)
          ∙ sym (group_counts-entries after ms' g))
    where
      positive :
          (g : Text) (n : ℕ) (e : Text × ℕ) (es : List (Text × ℕ)) → entry g n ≡ e ∷ es → 0 < n
      positive g zero e es h = cc
      positive g (suc n) e es h = omega arith

      listed : (g : Text) → Has g (group_counts after ms) → 0 < count_all g (get_or ms [])
      listed g (e, es, h) =
          positive g (count_all g (get_or ms [])) e es (sym (group_counts-entries after ms g) ∙ h)
