-- ===== src/Site/Docs/Headings/Ids.antt =====
-- The ids of headings with the same base.
use agentic_warden.Prelude.{
  ℕ, zero, suc, ◌+◌, ◌<◌, false, List, [], ◌∷◌, ◌++◌, append_assoc, Text, units, text_eq, nat_eq,
  ◌==◌, ==_iff, ==_refl, if◌then◌else◌, All, length, ◌≡◌, ◌≢◌, refl, sym, ap, subst, arith,
}
use mathlib.Core.List.{append_cancel_left}
use agentic_warden.Prelude.{length-append}
use agentic_warden.View.{decimal}
use agentic_warden.View.Decimal.{decimal-injective}
use agentic_warden.Site.Docs.Headings.{count_of, set_count, heading_id, heading_ids}

count_of-set_count :
    (seen : List (Text × ℕ)) (b c : Text) (n : ℕ)
    → count_of (set_count seen b n) c ≡ (if b == c then n else count_of seen c)
unfolding count_of set_count
count_of-set_count [] b c n = ground arith
count_of-set_count ((a, m) ∷ seen) b c n =
    ground (arith, count_of-set_count seen b c n, ==_iff a b, ==_iff a c, ==_iff b c)

-- The ids of the headings with a given base.
abbrev pub ids_of : Text → List Text → List Text → List Text
ids_of b [] ids = []
ids_of b (c ∷ bases) [] = []
ids_of b (c ∷ bases) (id ∷ ids) =
    let rest = ids_of b bases ids in if c == b then id ∷ rest else rest

-- Numbered ids from a count on.
abbrev pub numbered : Text → ℕ → ℕ → List Text
numbered b n zero = []
numbered b n (suc k) = heading_id b n ∷ numbered b (suc n) k

abbrev pub occurrences : Text → List Text → ℕ
occurrences b [] = 0
occurrences b (c ∷ bases) = if c == b then suc (occurrences b bases) else occurrences b bases

ids_of-heading_ids :
    (seen : List (Text × ℕ)) (b : Text) (bases : List Text)
    → ids_of b bases (heading_ids seen bases) ≡ numbered b (count_of seen b) (occurrences b bases)
unfolding heading_ids
ids_of-heading_ids seen b [] = refl
ids_of-heading_ids seen b (c ∷ bases) = ground (
  arith,
  ids_of-heading_ids (set_count seen c (count_of seen c + 1)) b bases,
  count_of-set_count seen c b (count_of seen c + 1),
  ==_iff c b,
)

longer : (b : Text) (m : ℕ) → b ≢ b ++ units "-" ++ decimal (suc m)
unfolding units
longer b m h = omega (
  arith,
  ap length h,
  length-append {0} (b ++ units "-") (decimal (suc m)),
  length-append {0} b (units "-"),
)

heading_id-injective : (b : Text) (n m : ℕ) → heading_id b n ≡ heading_id b m → n ≡ m
heading_id-injective b zero zero h = refl
heading_id-injective b zero (suc m) h = absurd (longer b m h)
heading_id-injective b (suc n) zero h = absurd (longer b n (sym h))
heading_id-injective b (suc n) (suc m) h =
    decimal-injective (suc n) (suc m)
      (append_cancel_left (b ++ units "-") (decimal (suc n)) (decimal (suc m)) h)

-- No two items of a list are equal.
abbrev pub Distinct : List Text → Type 0
Distinct [] = Unit
Distinct (x ∷ xs) = All (λ y. x ≢ y) xs × Distinct xs

numbered_later : (b : Text) (n m k : ℕ) → n < m → All (λ y. heading_id b n ≢ y) (numbered b m k)
numbered_later b n m zero h = tt
numbered_later b n m (suc k) h =
    ((λ e. omega (arith, heading_id-injective b n m e)), numbered_later b n (suc m) k (omega arith))

numbered-Distinct : (b : Text) (n k : ℕ) → Distinct (numbered b n k)
numbered-Distinct b n zero = tt
numbered-Distinct b n (suc k) =
    (numbered_later b n (suc n) k (omega arith), numbered-Distinct b (suc n) k)

ids_of_fresh :
    (b : Text) (bases : List Text)
    → ids_of b bases (heading_ids [] bases) ≡ numbered b 0 (occurrences b bases)
unfolding count_of
ids_of_fresh b bases = ids_of-heading_ids [] b bases

-- The headings of a page that share a base get the base itself, then the base with -1, -2 and so
-- on, one for each of them, and these ids are all different.
pub heading_ids-numbered :
    (b : Text) (bases : List Text)
    → (ids_of b bases (heading_ids [] bases) ≡ numbered b 0 (occurrences b bases))
      × Distinct (ids_of b bases (heading_ids [] bases))
heading_ids-numbered b bases =
    let e = ids_of_fresh b bases in
    (e, subst Distinct (sym e) (numbered-Distinct b 0 (occurrences b bases)))

longer_unit : (b : Text) → b ≢ b ++ units "-1"
unfolding units
longer_unit b h = omega (arith, ap length h, length-append {0} b (units "-1"))

beq_longer : (b : Text) → (b == b ++ units "-1") ≡ false
beq_longer b = ground (arith, ==_iff b (b ++ units "-1"), longer_unit b)

-- Headings with different bases can still get one id: whatever the base `b`, a page with two
-- headings of base `b` and a third of base `b-1` gives the last two the same id.
pub heading_ids-collide :
    (b : Text)
    → heading_ids [] (b ∷ b ∷ (b ++ units "-1") ∷ [])
      ≡ b ∷ (b ++ units "-1") ∷ (b ++ units "-1") ∷ []
unfolding heading_ids count_of set_count decimal units
heading_ids-collide b = rw (==_refl b) (rw other (rw append_assoc refl))
  where
    other : (b == b ++ b'-' ∷ b'1' ∷ []) ≡ false
    other = beq_longer b
