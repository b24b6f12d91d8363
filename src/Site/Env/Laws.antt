-- ===== src/Site/Env/Laws.antt =====
-- What a build that starts has established, and the form of the site's address.
use agentic_warden.Prelude.{
  true, false, [], ◌∷◌, ◌++◌, Text, units, ◌==◌, get_or, ok, ◌≡◌, ◌⊎◌, ◌↔◌, arith, All, Bool-cases,
  drop_while, drop_while_end, reverse, or_else, ◌≢◌, refl, sym, nat_eq, ap, ◌∙◌, inl, inr,
  All-reverse, text_eq,
}
use agentic_warden.Site.Env.{
  Env, is_set, required_in_production, is_production_deploy, assert_build_env, site_url, slash,
}
use mathlib.Core.List.{reverse-reverse, reverse-append}

-- The build goes on exactly when the deployment is not a production one, or when all four required
-- variables are set to a non-empty text and `DEMO_SENDER` is not.
pub assert_build_env-eq-ok_iff :
    (env : Env)
    → (assert_build_env env ≡ ok tt) ↔ (
        (is_production_deploy env ≡ false)
        ⊎ (All (λ key. is_set env key ≡ true) required_in_production
            × (is_set env "DEMO_SENDER" ≡ false)))
unfolding assert_build_env
assert_build_env-eq-ok_iff env = ground arith

-- A run of slashes and a text that does not begin with one.
drop_slashes :
    (s : Text)
    → (n : Text) × All (λ c. c ≡ slash) n
      × (s ≡ n ++ drop_while (λ c. c == slash) s)
      × ((t : Text) → drop_while (λ c. c == slash) s ≢ slash ∷ t)
unfolding drop_while
drop_slashes [] = ([], tt, refl, λ t h. cc)
drop_slashes (c ∷ s) = elim (Bool-cases (c == slash)) [
  | inl same ↦
      let (n, all, e, ne) = drop_slashes s in
      (c ∷ n, (ground arith, all), rw same (ap (λ t. c ∷ t) e), rw same ne)
  | inr other ↦ ([], tt, rw other, λ t. rw other (ground arith))
]

drop_end-slashes :
    (s : Text)
    → (n : Text) × All (λ c. c ≡ slash) n
      × (s ≡ drop_while_end (λ c. c == slash) s ++ n)
      × ((t : Text) → drop_while_end (λ c. c == slash) s ≢ t ++ slash ∷ [])
unfolding drop_while_end
drop_end-slashes s =
    let (n, all, e, ne) = drop_slashes (reverse s) in
    let d = drop_while (λ c. c == slash) (reverse s) in
    (
      reverse n,
      All-reverse _ n all,
      sym (reverse-reverse s) ∙ ap reverse e ∙ reverse-append n d,
      λ t h.
          ne (reverse t) (sym (reverse-reverse d) ∙ ap reverse h ∙ reverse-append t (slash ∷ [])),
    )

-- The address is the configured text, or the local default where none is configured, without all
-- the slashes at its end: what is dropped are slashes, and the address does not end with one.
pub site_url_trimmed :
    (env : Env)
    → (n : Text) × All (λ c. c ≡ slash) n
      × (or_else (get_or (env "NEXT_PUBLIC_SITE_URL") []) (units "http://localhost:3000")
          ≡ site_url env ++ n)
      × ((t : Text) → site_url env ≢ t ++ slash ∷ [])
unfolding site_url
site_url_trimmed env =
    drop_end-slashes
      (or_else (get_or (env "NEXT_PUBLIC_SITE_URL") []) (units "http://localhost:3000"))
