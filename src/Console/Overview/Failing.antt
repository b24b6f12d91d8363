-- ===== src/Console/Overview/Failing.antt =====
-- What console/src/screens/overview.tsx says when requests fail.
use agentic_warden.Prelude.{
  Bool, true, false, String, Option, none, some, List, [], ◌∷◌, ◌++◌, append_assoc, append-nil,
  flat_map, Text, units, text_beq, text_eq, nat_eq, first?, is_empty, get_or, ltb, ◌≡◌, refl, ap,
  ◌∙◌,
}
use agentic_warden.Prelude.{ℤ}
use agentic_warden.Console.Types.{
  Me, Revision, Machine, GroupsView, AuditEvent, error_message, Query, QueryStatus, pending,
  succeeded, failed,
}
use agentic_warden.Console.Format.{Span}
use agentic_warden.Console.Overview.{
  card, card_error, policy_card, old_key_count, machines_card, groups_text, groups_card,
  activity_item, activity_card, overview_page,
}
use agentic_warden.View.{Html, finish, el}
use agentic_warden.View.Alerts.{alert_texts}

-- The message of a failed query.
abbrev pub failure_texts : QueryStatus → List Text
failure_texts (failed e) = error_message e (units "Could not load this.") ∷ []
failure_texts pending = []
failure_texts succeeded = []

policy_card-alerts :
    (q : Query (List Revision)) (rest : Html ⊥)
    → alert_texts (policy_card q ++ rest) ≡ failure_texts q.status ++ alert_texts rest
unfolding policy_card card_error units text_beq
policy_card-alerts q rest = go q.status refl (first? (get_or q.loaded [])) refl
  where
    go :
        (s : QueryStatus)
        → q.status ≡ s
        → (r : Option Revision) → first? (get_or q.loaded []) ≡ r
        → alert_texts (policy_card q ++ rest) ≡ failure_texts q.status ++ alert_texts rest
    go (failed e) h r k = rw (h, policy_card) refl
    go pending h none k = rw (h, k, policy_card) refl
    go pending h (some r) k = rw (h, k, policy_card) refl
    go succeeded h none k = rw (h, k, policy_card) refl
    go succeeded h (some r) k = rw (h, k, policy_card) refl

machines_card-alerts :
    (me : Me) (q : Query (List Machine)) (rest : Html ⊥)
    → alert_texts (machines_card me q ++ rest) ≡ failure_texts q.status ++ alert_texts rest
unfolding machines_card card_error units text_beq
machines_card-alerts me q rest =
    go q.status refl (ltb 0 (old_key_count me (get_or q.loaded []))) refl
  where
    go :
        (s : QueryStatus)
        → q.status ≡ s
        → (b : Bool) → ltb 0 (old_key_count me (get_or q.loaded [])) ≡ b
        → alert_texts (machines_card me q ++ rest) ≡ failure_texts q.status ++ alert_texts rest
    go (failed e) h b k = rw (h, machines_card) refl
    go pending h b k = rw (h, machines_card) refl
    go succeeded h true k = rw (h, k, machines_card) refl
    go succeeded h false k = rw (h, k, machines_card) refl

module _ (time_of : Text → Option ℤ) (format : ℤ → Span → Text) (now : ℤ) where
  groups_card-alerts :
      (q : Query (Option GroupsView)) (rest : Html ⊥)
      → alert_texts (groups_card time_of format now q ++ rest)
        ≡ failure_texts q.status ++ alert_texts rest
  unfolding groups_card groups_text card_error units text_beq
  groups_card-alerts q rest = go q.status refl (get_or q.loaded none) refl
    where
      go :
          (s : QueryStatus)
          → q.status ≡ s
          → (g : Option GroupsView) → get_or q.loaded none ≡ g
          → alert_texts (groups_card time_of format now q ++ rest)
            ≡ failure_texts q.status ++ alert_texts rest
      go (failed e) h g k = rw (h, groups_card) refl
      go pending h none k = rw (h, k, groups_card) refl
      go pending h (some g) k = rw (h, k, groups_card) refl
      go succeeded h none k = rw (h, k, groups_card) refl
      go succeeded h (some g) k = rw (h, k, groups_card) refl

  activity_items-alerts :
      (es : List AuditEvent) (rest : Html ⊥)
      → alert_texts (flat_map (activity_item time_of format now) es ++ rest) ≡ alert_texts rest
  unfolding activity_item units text_beq flat_map
  activity_items-alerts [] rest = refl
  activity_items-alerts (e ∷ es) rest = activity_items-alerts es rest

  activity_list-alerts :
      (es : List AuditEvent) (rest : Html ⊥)
      → alert_texts (el "ul" [] (flat_map (activity_item time_of format now) es) ++ rest)
        ≡ alert_texts rest
  activity_list-alerts es rest =
      ap alert_texts
        (append_assoc (flat_map (activity_item time_of format now) es) (finish "ul" ∷ []) rest)
      ∙ activity_items-alerts es (finish "ul" ∷ rest)

  activity_card-alerts :
      (q : Query (List AuditEvent)) (rest : Html ⊥)
      → alert_texts (activity_card time_of format now q ++ rest)
        ≡ failure_texts q.status ++ alert_texts rest
  unfolding activity_card card_error units text_beq
  activity_card-alerts q rest = go q.status refl (is_empty (get_or q.loaded [])) refl
    where
      listed :
          alert_texts
            (el "ul" [] (flat_map (activity_item time_of format now) (get_or q.loaded [])) ++ rest)
          ≡ alert_texts rest
      listed = activity_list-alerts (get_or q.loaded []) rest

      go :
          (s : QueryStatus)
          → q.status ≡ s
          → (b : Bool) → is_empty (get_or q.loaded []) ≡ b
          → alert_texts (activity_card time_of format now q ++ rest)
            ≡ failure_texts q.status ++ alert_texts rest
      go (failed e) h b k = rw (h, activity_card) refl
      go pending h true k = rw (h, k, activity_card) refl
      go pending h false k = rw (h, k, activity_card) listed
      go succeeded h true k = rw (h, k, activity_card) refl
      go succeeded h false k = rw (h, k, activity_card) listed

  -- One card of the page, and what follows it.
  card-alerts :
      (title : String) (content : Html ⊥) (said : List Text)
      → ((rest : Html ⊥) → alert_texts (content ++ rest) ≡ said ++ alert_texts rest)
      → (tail : Html ⊥) → alert_texts (card title content ++ tail) ≡ said ++ alert_texts tail
  unfolding units text_beq
  card-alerts title content said h tail =
      ap alert_texts (
        append_assoc (content ++ finish "CardContent" ∷ []) (finish "Card" ∷ []) tail
        ∙ append_assoc content (finish "CardContent" ∷ []) (finish "Card" ∷ tail))
      ∙ h (finish "CardContent" ∷ finish "Card" ∷ tail)

  -- A column of four cards.
  column-alerts :
      (a b c d tail : Html ⊥)
      → (sa sb sc sd : List Text)
      → ((rest : Html ⊥) → alert_texts (a ++ rest) ≡ sa ++ alert_texts rest)
      → ((rest : Html ⊥) → alert_texts (b ++ rest) ≡ sb ++ alert_texts rest)
      → ((rest : Html ⊥) → alert_texts (c ++ rest) ≡ sc ++ alert_texts rest)
      → ((rest : Html ⊥) → alert_texts (d ++ rest) ≡ sd ++ alert_texts rest)
      → alert_texts ((a ++ b ++ c ++ d) ++ tail) ≡ sa ++ sb ++ sc ++ sd ++ alert_texts tail
  column-alerts a b c d tail sa sb sc sd ha hb hc hd =
      rw
        (
          append_assoc (a ++ b ++ c) d tail,
          append_assoc (a ++ b) c,
          append_assoc a b,
          ha,
          hb,
          hc,
          hd,
          append_assoc (sa ++ sb ++ sc) sd,
          append_assoc (sa ++ sb) sc,
          append_assoc sa sb,
        )
        refl

  -- The overview shows one alert for each of its four requests that failed, in the order of the
  -- cards, with that request's message, and no other alert, whatever else the answers hold.
  pub overview_page-alerts :
      (me : Me) (revisions : Query (List Revision)) (machines : Query (List Machine))
      (groups : Query (Option GroupsView)) (audit : Query (List AuditEvent))
      → alert_texts (overview_page time_of format now me revisions machines groups audit)
        ≡ failure_texts revisions.status
          ++ failure_texts machines.status
          ++ failure_texts groups.status
          ++ failure_texts audit.status
  unfolding overview_page units text_beq
  overview_page-alerts me revisions machines groups audit =
      let column =
        column-alerts (card "Policy" (policy_card revisions))
          (card "Machines" (machines_card me machines))
          (card "Groups" (groups_card time_of format now groups))
          (card "Recent activity" (activity_card time_of format now audit))
          (finish "div" ∷ finish "div" ∷ []) (failure_texts revisions.status)
          (failure_texts machines.status) (failure_texts groups.status) (failure_texts audit.status)
          (card-alerts "Policy" (policy_card revisions) (failure_texts revisions.status)
            (policy_card-alerts revisions))
          (card-alerts "Machines" (machines_card me machines) (failure_texts machines.status)
            (machines_card-alerts me machines))
          (card-alerts "Groups" (groups_card time_of format now groups)
            (failure_texts groups.status) (groups_card-alerts groups))
          (card-alerts "Recent activity" (activity_card time_of format now audit)
            (failure_texts audit.status) (activity_card-alerts audit)) in
      ap alert_texts (
        append_assoc
          (card "Policy" (policy_card revisions)
            ++ card "Machines" (machines_card me machines)
            ++ card "Groups" (groups_card time_of format now groups)
            ++ card "Recent activity" (activity_card time_of format now audit))
          (finish "div" ∷ []) (finish "div" ∷ []))
      ∙ column
      ∙ append-nil (
          failure_texts revisions.status
          ++ failure_texts machines.status
          ++ failure_texts groups.status
          ++ failure_texts audit.status)
