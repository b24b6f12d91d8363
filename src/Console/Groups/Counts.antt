-- ===== src/Console/Groups/Counts.antt =====
-- That the table of groups counts what it should.
use agentic_warden.Prelude.{
  ℕ, zero, suc, ◌+◌, Bool, true, false, Option, List, [], ◌∷◌, Text, text_eq, nat_eq, ◌==◌, ==_iff,
  ==_refl, if◌then◌else◌, Bool-cases, filter, get_or, ◌≡◌, inl, inr, refl, sym, ap, ◌∙◌, arith,
}
use agentic_warden.Console.Groups.{bump, bump_all, tally, insert_count, sort_counts, group_counts}

-- The entries of one group.
abbrev pub entries_of : Text → List (Text × ℕ) → List (Text × ℕ)
entries_of g = filter (λ e. e.0 == g)

-- How often a group stands in a list, and in the lists of all users.
abbrev pub count_in : Text → List Text → ℕ
count_in g [] = 0
count_in g (h ∷ hs) = (if h == g then 1 else 0) + count_in g hs

abbrev pub count_all : Text → List (Text × List Text) → ℕ
count_all g [] = 0
count_all g ((user, gs) ∷ members) = count_in g gs + count_all g members

-- The entry of a group that is counted n times.
abbrev pub entry : Text → ℕ → List (Text × ℕ)
entry g zero = []
entry g (suc n) = (g, suc n) ∷ []

bump-miss :
    (g h : Text) (cs : List (Text × ℕ))
    → (h == g) ≡ false
    → entries_of g (bump h cs) ≡ entries_of g cs
unfolding bump
bump-miss g h [] e = rw (e) refl
bump-miss g h ((k, n) ∷ cs) e = elim (Bool-cases (k == h)) [
  | inl hit ↦ let off : (k == g) ≡ false = rw ((==_iff k h).0 hit) e in rw (hit) (rw (off) refl)
  | inr miss ↦ rw (miss) (rw (bump-miss g h cs e) refl)
]

bump-hit :
    (g : Text) (n : ℕ) (cs : List (Text × ℕ))
    → entries_of g cs ≡ entry g n
    → entries_of g (bump g cs) ≡ entry g (suc n)
unfolding bump
bump-hit g zero [] e = rw (==_refl g) refl
bump-hit g (suc n) [] e = cc
bump-hit g n ((k, m) ∷ cs) e = elim (Bool-cases (k == g)) [
  | inl hit ↦ rw (hit) (rw (hit) (first n (rw-hit hit)))
  | inr miss ↦ rw (miss) (rw (miss) (bump-hit g n cs (sym (rw-miss miss) ∙ e)))
]
  where
    opened : (k == g) ≡ true → entries_of g ((k, m) ∷ cs) ≡ (k, m) ∷ entries_of g cs
    opened hit = rw (hit) refl

    rw-hit : (k == g) ≡ true → (k, m) ∷ entries_of g cs ≡ entry g n
    rw-hit hit = sym (opened hit) ∙ e

    rw-miss : (k == g) ≡ false → entries_of g ((k, m) ∷ cs) ≡ entries_of g cs
    rw-miss miss = rw (miss) refl

    first :
        (v : ℕ)
        → (k, m) ∷ entries_of g cs ≡ entry g v
        → (k, suc m) ∷ entries_of g cs ≡ entry g (suc v)
    first zero f = cc
    first (suc v) f = cc

bump-entry :
    (g h : Text) (n : ℕ) (cs : List (Text × ℕ))
    → entries_of g cs ≡ entry g n
    → entries_of g (bump h cs) ≡ entry g ((if h == g then 1 else 0) + n)
bump-entry g h n cs e = elim (Bool-cases (h == g)) [
  | inl hit ↦
      rw (hit, (==_iff h g).0 hit) (bump-hit g n cs e ∙ ap (entry g) {x = suc n} (omega arith))
  | inr miss ↦ rw (miss) (bump-miss g h cs miss ∙ e ∙ ap (entry g) {x = n} (omega arith))
]

bump_all-entry :
    (g : Text) (hs : List Text) (n : ℕ) (cs : List (Text × ℕ))
    → entries_of g cs ≡ entry g n
    → entries_of g (bump_all hs cs) ≡ entry g (count_in g hs + n)
unfolding bump_all
bump_all-entry g [] n cs e = e ∙ ap (entry g) (omega arith)
bump_all-entry g (h ∷ hs) n cs e =
    bump_all-entry g hs ((if h == g then 1 else 0) + n) (bump h cs) (bump-entry g h n cs e)
    ∙ ap (entry g) (omega arith)

tally-entry :
    (g : Text) (ms : List (Text × List Text)) (n : ℕ) (cs : List (Text × ℕ))
    → entries_of g cs ≡ entry g n
    → entries_of g (tally ms cs) ≡ entry g (count_all g ms + n)
unfolding tally
tally-entry g [] n cs e = e ∙ ap (entry g) (omega arith)
tally-entry g ((user, gs) ∷ ms) n cs e =
    tally-entry g ms (count_in g gs + n) (bump_all gs cs) (bump_all-entry g gs n cs e)
    ∙ ap (entry g) (omega arith)

module _ (after : Text → Text → Bool) where
  insert_count-miss :
      (g : Text) (x : Text × ℕ) (ys : List (Text × ℕ))
      → (x.0 == g) ≡ false
      → entries_of g (insert_count after x ys) ≡ entries_of g ys
  unfolding insert_count
  insert_count-miss g x [] h = rw (h) refl
  insert_count-miss g x (y ∷ ys) h = elim (Bool-cases (after x.0 y.0)) [
    | inl a ↦ rw (a) (rw (insert_count-miss g x ys h) refl)
    | inr a ↦ rw (a) (rw (h) refl)
  ]

  insert_count-hit :
      (g : Text) (x : Text × ℕ) (ys : List (Text × ℕ))
      → (x.0 == g) ≡ true
      → entries_of g ys ≡ []
      → entries_of g (insert_count after x ys) ≡ x ∷ []
  unfolding insert_count
  insert_count-hit g x [] h e = rw (h) refl
  insert_count-hit g x (y ∷ ys) h e = elim (Bool-cases (after x.0 y.0)) [
    | inl a ↦ rw (a) (elim (Bool-cases (y.0 == g)) [
      | inl b ↦ absurd (ground arith)
      | inr b ↦ rw (b) (insert_count-hit g x ys h (ground arith))
    ])
    | inr a ↦ rw (a) (rw (h) (ap (λ t. x ∷ t) e))
  ]

  sort_counts-entry :
      (g : Text) (n : ℕ) (xs : List (Text × ℕ))
      → entries_of g xs ≡ entry g n
      → entries_of g (sort_counts after xs) ≡ entry g n
  unfolding sort_counts
  sort_counts-entry g n [] e = e
  sort_counts-entry g n (x ∷ xs) e = elim (Bool-cases (x.0 == g)) [
    | inl hit ↦ first (sort_counts-entry g 0 xs) n hit (sym (opened hit) ∙ e)
    | inr miss ↦
        insert_count-miss g x (sort_counts after xs) miss
        ∙ sort_counts-entry g n xs (sym (dropped miss) ∙ e)
  ]
    where
      opened : (x.0 == g) ≡ true → entries_of g (x ∷ xs) ≡ x ∷ entries_of g xs
      opened hit = rw (hit) refl

      dropped : (x.0 == g) ≡ false → entries_of g (x ∷ xs) ≡ entries_of g xs
      dropped miss = rw (miss) refl

      first :
          (entries_of g xs ≡ [] → entries_of g (sort_counts after xs) ≡ [])
          → (v : ℕ) → (x.0 == g) ≡ true
          → x ∷ entries_of g xs ≡ entry g v
          → entries_of g (sort_counts after (x ∷ xs)) ≡ entry g v
      first rest zero hit f = cc
      first rest (suc v) hit f = insert_count-hit g x (sort_counts after xs) hit (rest cc) ∙ cc

  -- In the table each group that some user has stands exactly once, with the number of times that it
  -- occurs in the users' lists, and no other group stands there.
  pub group_counts-entries :
      (members : Option (List (Text × List Text))) (g : Text)
      → filter (λ e. e.0 == g) (group_counts after members)
        ≡ entry g (count_all g (get_or members []))
  unfolding group_counts
  group_counts-entries members g =
      sort_counts-entry g (count_all g (get_or members [])) (tally (get_or members []) [])
        (tally-entry g (get_or members []) 0 [] refl ∙ ap (entry g) (omega arith))
