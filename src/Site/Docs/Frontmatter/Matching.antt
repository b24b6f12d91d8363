-- ===== src/Site/Docs/Frontmatter/Matching.antt =====
-- How the patterns of web/lib/docs.ts match a text that is put together.
use agentic_warden.Prelude.{
  ℕ, Bool, true, false, not, some, [], ◌∷◌, ◌++◌, reverse, Text, text_eq, nat_eq, ◌≡◌, refl, sym,
  ap, ◌∙◌, subst, arith,
}
use mathlib.Core.List.{reverse-append, reverse-reverse, reverse-cons}
use agentic_warden.Prelude.{take_while, drop_while, drop_while_end, trim, is_space}
use agentic_warden.Prelude.{all_units}
use agentic_warden.Site.Docs.Frontmatter.{behind}

pub behind-append : (p s : Text) → behind p (p ++ s) ≡ some s
unfolding behind
behind-append [] s = refl
behind-append (c ∷ p) s = ground (arith, behind-append p s)

pub take_while-append :
    (p : ℕ → Bool) (s r : Text)
    → all_units p s ≡ true
    → take_while p r ≡ []
    → take_while p (s ++ r) ≡ s
unfolding take_while
take_while-append p [] r h e = e
take_while-append p (c ∷ s) r h e = ground (arith, take_while-append p s r)

pub drop_while-append :
    (p : ℕ → Bool) (s r : Text)
    → all_units p s ≡ true
    → drop_while p r ≡ r
    → drop_while p (s ++ r) ≡ r
unfolding drop_while
drop_while-append p [] r h e = e
drop_while-append p (c ∷ s) r h e = ground (arith, drop_while-append p s r)

pub all_units-append :
    (p : ℕ → Bool) (s t : Text)
    → all_units p s ≡ true
    → all_units p t ≡ true
    → all_units p (s ++ t) ≡ true
all_units-append p [] t h k = k
all_units-append p (c ∷ s) t h k = ground (arith, all_units-append p s t)

pub all_units-weaken :
    (p q : ℕ → Bool) (s : Text)
    → ((c : ℕ) → p c ≡ true → q c ≡ true)
    → all_units p s ≡ true
    → all_units q s ≡ true
all_units-weaken p q [] w h = refl
all_units-weaken p q (c ∷ s) w h = ground (arith, w c, all_units-weaken p q s w)

drop_while-end_lem :
    (p : ℕ → Bool) (s : Text) (c : ℕ) → p c ≡ false → drop_while_end p (s ++ c ∷ []) ≡ s ++ c ∷ []
unfolding drop_while_end drop_while
drop_while-end_lem p s c h =
    rw (reverse-append s (c ∷ []))
      (rw (h) (rw (reverse-cons c (reverse s)) (rw (reverse-reverse s) refl)))

drop_while-stops : (p : ℕ → Bool) (c : ℕ) (s : Text) → p c ≡ false → drop_while p (c ∷ s) ≡ c ∷ s
unfolding drop_while
drop_while-stops p c s h = rw (h) refl

-- White space between two marks that are none is kept.
pub trim-between :
    (c d : ℕ) (s : Text)
    → is_space c ≡ false
    → is_space d ≡ false
    → trim (c ∷ s ++ d ∷ []) ≡ c ∷ s ++ d ∷ []
unfolding trim
trim-between c d s h k =
    ap (drop_while_end is_space) (drop_while-stops is_space c (s ++ d ∷ []) h)
    ∙ drop_while-end_lem is_space (c ∷ s) d k

last_split : (c : ℕ) (s : Text) → (t : Text) × (d : ℕ) × (c ∷ s ≡ t ++ d ∷ [])
last_split c [] = ([], c, refl)
last_split c (d ∷ s) = let (t, e, h) = last_split d s in (c ∷ t, e, ap (λ u. c ∷ u) h)

all_units-last : (p : ℕ → Bool) (t : Text) (d : ℕ) → all_units p (t ++ d ∷ []) ≡ true → p d ≡ true
all_units-last p [] d h = ground arith
all_units-last p (c ∷ t) d h = ground (arith, all_units-last p t d)

pub trim-plain : (s : Text) → all_units (λ c. not (is_space c)) s ≡ true → trim s ≡ s
unfolding trim drop_while_end drop_while
trim-plain [] h = refl
trim-plain (c ∷ s) h =
    let (t, d, e) = last_split c s in
    let tail =
      all_units-last (λ c. not (is_space c)) t d
        (subst (λ u. all_units (λ c. not (is_space c)) u ≡ true) e h) in
    ap (drop_while_end is_space) (drop_while-stops is_space c s (ground arith))
    ∙ ap (drop_while_end is_space) e
    ∙ drop_while-end_lem is_space t d (ground arith)
    ∙ sym e
