-- ===== src/Console/Policy/Editing.antt =====
-- console/src/policy/editor.tsx, with the editor of the package CodeMirror behind it, and the form of
-- console/src/screens/policy.tsx that holds it. What the package does is a parameter: `read_doc` is
-- the text of a document that is made from a text (line breaks of every kind become line feeds),
-- `line_count` and `line_from` are `doc.lines` and `doc.line(n).from`, and a `Moves` is where
-- a change of the document takes the position of a decoration, if that is kept.
pub mod Synced
pub mod Reviewed
pub mod Marked
use agentic_warden.Prelude.{
  ℕ, zero, suc, ◌+◌, ◌-◌, ◌*◌, ◌≤◌, ◌<◌, Bool, true, false, not, ◌&&◌, ◌||◌, String, Option, none,
  some, List, [], ◌∷◌, ◌++◌, map, reverse, flat_map, append_assoc, append-nil, Text, units,
  text_beq, text_eq, nat_eq, Equality, ◌==◌, ==_iff, ==_refl, if◌then◌else◌, Bool-cases,
  Option-cases, All, All-append, All-reverse, length, filter, find?, is_empty, first?, last?,
  contains, is_some, get_or, truthy, or_else, split, join, ◌≡◌, ◌≢◌, ◌↔◌, ◌⊎◌, inl, inr, refl, sym,
  ap, ◌∙◌, subst, fun_ext, arith, ltb, leb, Result,
}
use agentic_warden.Prelude.{min, max}
use agentic_warden.Console.Types.{Json, Revision}
use agentic_warden.Console.Policy.Yaml.{Document}
use agentic_warden.Console.Policy.Draft.{
  DraftState, DraftEvent, edited, DraftEffect, initial_draft, draft_step,
}

abbrev pub Moves : Type 0
Moves = ℕ → Option ℕ

-- The document, and where the line decoration stands, if there is one (`errorLineField`).
pub record Editor : Type 0 where
  pub doc : Text
  pub mark : Option ℕ

-- The form with the editor in it, which is loaded later.
pub record EditingState : Type 0 where
  pub form : DraftState
  pub editor : Option Editor

pub data EditingEvent : Type 0 where
  -- the chunk of the editor has arrived
  editor_loaded : EditingEvent
  -- the operator changes the document
  typed : Text → Moves → EditingEvent
  -- what happens in the form but for `editDraft`
  happened : DraftEvent → EditingEvent

-- How many renderings are followed: more are never needed.
abbrev pub rounds : ℕ
rounds = 2

module _ (to_yaml to_text : Json → Text) (parse_document : Text → Document) where
  -- `onChange` is `editDraft`.
  unfoldable pub edit_draft : DraftState → List Text → DraftState
  edit_draft s [] = s
  edit_draft s (t ∷ ts) = edit_draft (draft_step to_yaml to_text parse_document s (edited t)).0 ts

module _ (line_count : Text → ℕ) (line_from : Text → ℕ → ℕ) where
  -- An effect `setErrorLine` in the update of the field, on the document after the transaction.
  unfoldable pub set_error_line : Text → Option ℕ → Option ℕ
  set_error_line doc none = none
  set_error_line doc (some line) = some (line_from doc (min (max line 1) (line_count doc)))

  -- The effects of one transaction, in their order.
  unfoldable pub set_error_lines : Text → List (Option ℕ) → Option ℕ → Option ℕ
  unfolding set_error_line
  set_error_lines doc [] mark = mark
  set_error_lines doc (e ∷ es) mark = set_error_lines doc es (set_error_line doc e)

  -- `update` of the field.
  unfoldable pub update_mark : Text → Moves → List (Option ℕ) → Option ℕ → Option ℕ
  unfolding set_error_lines
  update_mark doc moves effects mark =
      set_error_lines doc effects (elim mark [ none ↦ none | some p ↦ moves p ])

  -- A transaction of the view: the new document with its moves, the effects, and what
  -- `updateListener` passes to `onChange`.
  unfoldable pub dispatch_changes : Text → Moves → Editor → Editor × List Text
  unfolding update_mark
  dispatch_changes doc moves e =
      (record { doc = doc; mark = update_mark doc moves [] e.mark }, doc ∷ [])

  unfoldable pub dispatch_error_line : Option ℕ → Editor → Editor
  unfolding update_mark
  dispatch_error_line line e = record e {
    mark = update_mark e.doc (λ p. some p) (line ∷ []) e.mark;
  }

  module _ (read_doc : Text → Text) (replaced : Text → Text → Moves) where
    -- The effect on `[value]`.
    unfoldable pub value_effect : Text → Editor → Editor × List Text
    unfolding dispatch_changes
    value_effect value e =
        if not (e.doc == value)
        then dispatch_changes (read_doc value) (replaced e.doc value) e
        else (e, [])

    -- The first effect, and those after it on the first rendering.
    unfoldable pub mount_editor : Text → Option ℕ → Editor × List Text
    unfolding value_effect dispatch_error_line
    mount_editor value error_line =
        let (e, calls) = value_effect value (record { doc = read_doc value; mark = none }) in
        (dispatch_error_line error_line e, calls)

    -- The form and the editor together.
    module _ (to_yaml to_text : Json → Text) (parse_document : Text → Document) where
      -- A rendering with a new draft, and what its effect on the editor calls back.
      unfoldable pub render_value : DraftState → Editor → DraftState × Editor
      unfolding value_effect edit_draft
      render_value s e =
          let (e', calls) = value_effect s.draft e in
          (edit_draft to_yaml to_text parse_document s calls, e')

      -- The renderings that follow one another: the effect runs again if a call back has changed
      -- the draft.
      unfoldable pub render_values : ℕ → DraftState → Editor → DraftState × Editor
      unfolding render_value
      render_values zero s e = (s, e)
      render_values (suc n) s e =
          let (s', e') = render_value s e in
          let rest = render_values n s' e' in if s'.draft == s.draft then (s', e') else rest

      -- The effect on `[errorLine]`, which runs if that has changed.
      unfoldable pub render_error_line : Option ℕ → Option ℕ → Editor → Editor
      unfolding dispatch_error_line
      render_error_line none none e = e
      render_error_line (some a) (some b) e = if a == b then e else dispatch_error_line (some b) e
      render_error_line (some a) none e = dispatch_error_line none e
      render_error_line none (some b) e = dispatch_error_line (some b) e

      -- The first rendering of the editor.
      unfoldable pub load_editor : DraftState → EditingState
      unfolding mount_editor edit_draft render_values
      load_editor s =
          let (e, calls) = mount_editor s.draft s.error_line in
          let (s', e') =
            render_values rounds (edit_draft to_yaml to_text parse_document s calls) e in
          record { form = s'; editor = some e' }

      -- The form has gone from `s` to `s'`.
      unfoldable pub render_form : DraftState → DraftState → Option Editor → EditingState
      unfolding render_values render_error_line
      render_form s s' none = record { form = s'; editor = none }
      render_form s s' (some e) =
          let (s'', e') = render_values rounds s' e in
          record { form = s''; editor = some (render_error_line s.error_line s'.error_line e') }

      unfoldable pub type_in : DraftState → Option Editor → Text → Moves → EditingState
      unfolding edit_draft dispatch_changes
      type_in s none t moves = record { form = s; editor = none }
      type_in s (some e) t moves =
          let (e', calls) = dispatch_changes t moves e in
          record { form = edit_draft to_yaml to_text parse_document s calls; editor = some e' }

      unfoldable pub editing_step : EditingState → EditingEvent → EditingState × List DraftEffect
      unfolding load_editor render_form type_in
      editing_step s editor_loaded = (if is_some s.editor then s else load_editor s.form, [])
      editing_step s (typed t moves) = (type_in s.form s.editor t moves, [])
      editing_step s (happened event) =
          let (form', effects) = draft_step to_yaml to_text parse_document s.form event in
          (render_form s.form form' s.editor, effects)

      unfoldable pub start_editing : Option Revision → EditingState
      start_editing current = record {
        form = initial_draft to_yaml to_text parse_document current;
        editor = none;
      }
