-- ===== src/Site/Docs/Assets/Safety.antt =====
-- The files that are served lie in the folder of the images itself.
use agentic_warden.Prelude.{
  true, false, not, some, [], ◌∷◌, reverse, Text, units, text_beq, text_eq, nat_eq, ◌==◌, ==_iff,
  ==_refl, Bool-cases, All, All-reverse, contains, ◌≡◌, ◌≢◌, ◌⊎◌, inl, inr, refl, sym, ap, ◌∙◌,
  arith,
}
use agentic_warden.Prelude.{starts_with, take_while, drop_while}
use mathlib.Core.List.{reverse-reverse}
use agentic_warden.Site.Docs.Assets.{
  inherited, asset_types, extension, asset_type, slash, basename, asset_path, prototype_names,
}

abbrev pub NoSlash : Text → Type 0
NoSlash = All (λ c. c ≢ slash)

take_while_all : (s : Text) → NoSlash s → take_while (λ c. not (c == slash)) s ≡ s
unfolding take_while
take_while_all [] h = refl
take_while_all (c ∷ s) (p, h) = ground (arith, take_while_all s h)

drop_while_none : (s : Text) → NoSlash s → drop_while (λ c. c == slash) s ≡ s
unfolding drop_while
drop_while_none [] h = refl
drop_while_none (c ∷ s) (p, h) = ground arith

basename_of_NoSlash : (s : Text) → NoSlash s → basename s ≡ s
unfolding basename
basename_of_NoSlash s h =
    let r = All-reverse (λ c. c ≢ slash) s h in
    ap (λ t. reverse (take_while (λ c. not (c == slash)) t)) (drop_while_none (reverse s) r)
    ∙ ap reverse (take_while_all (reverse s) r)
    ∙ reverse-reverse s

own_names :
    (contains prototype_names (units "gif") ≡ false)
    × (contains prototype_names (units "svg") ≡ false)
unfolding prototype_names units text_beq
own_names = (refl, refl)

asset_types-inherited :
    (ext : Text) → contains prototype_names ext ≡ true → asset_types ext ≡ some (inherited ext)
unfolding asset_types
asset_types-inherited ext h = elim (Bool-cases (ext == units "gif")) [
  | inl gif ↦
      let same = (==_iff ext (units "gif")).0 gif in
      absurd (cc (sym (ap (contains prototype_names) same) ∙ h, own_names.0))
  | inr a ↦ elim (Bool-cases (ext == units "svg")) [
    | inl svg ↦
        let same = (==_iff ext (units "svg")).0 svg in
        absurd (cc (sym (ap (contains prototype_names) same) ∙ h, own_names.1))
    | inr b ↦ rw (a, b, h)
  ]
]

-- A plain file name whose extension is the name of a member that every object inherits passes the
-- check of the type: it gets a path, though the table of types has no entry for it.
pub asset_path-inherited :
    (join_path : Text → Text → Text) (assets_dir file : Text)
    → NoSlash file
    → starts_with file (units ".") ≡ false
    → contains prototype_names (extension file) ≡ true
    → (asset_path join_path assets_dir file ≡ some (join_path assets_dir file))
      × (asset_type file ≡ some (inherited (extension file)))
unfolding asset_path asset_type
asset_path-inherited join_path assets_dir file plain dot ext =
    let known = asset_types-inherited (extension file) ext in
    (rw (basename_of_NoSlash file plain, ==_refl file, dot, known), known)

-- The extensions that pass the check of the type.
abbrev pub IsServed : Text → Type 0
IsServed ext = (ext ≡ units "gif") ⊎ (ext ≡ units "svg") ⊎ (contains prototype_names ext ≡ true)
