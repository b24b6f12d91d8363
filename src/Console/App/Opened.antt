-- ===== src/Console/App/Opened.antt =====
-- Who sees which screen of the console.
use agentic_warden.Prelude.{
  Option, none, some, Text, text_eq, nat_eq, Option-cases, ◌≡◌, ◌↔◌, inl, inr, refl, arith,
}
use agentic_warden.Prelude.{Occurs, find?-hit, Bool, true, ap, Option}
use agentic_warden.Console.Types.{Me, Query, succeeded, failed, api_error}
use agentic_warden.Console.Session.{Screen, message, sign_in, console, gate, NavItem, nav_items}
use agentic_warden.Console.Session.Lost.{gate_lem}
use agentic_warden.Console.App.{Route, closed, opened, find_route, app, route_tree}

module _ (matches : Text → Text → Bool) where
  app-console :
      (q : Query Me) (path : Text) (me : Me) (r : Route)
      → gate q ≡ some (console me)
      → find_route matches path ≡ some r
      → app matches q path ≡ some (opened me r)
  unfolding app
  app-console q path me r h k = rw (app, h, k) refl

  opened-console :
      (q : Query Me) (path : Text) (s : Option Screen) (me : Me) (r : Route)
      → gate q ≡ s
      → app matches q path ≡ some (opened me r)
      → (s ≡ some (console me)) × (find_route matches path ≡ some r)
  unfolding app
  opened-console q path none me r h k = absurd (ground (arith, h, k))
  opened-console q path (some sign_in) me r h k = absurd (ground (arith, h, k))
  opened-console q path (some (message t b)) me r h k = absurd (ground (arith, h, k))
  opened-console q path (some (console you)) me r h k =
      elim (Option-cases (find_route matches path)) [
        | inl none_there ↦ absurd (ground (arith, h, k, none_there))
        | inr (other, there) ↦
            let shown : opened you other ≡ opened me r = ground (arith, h, k, there) in (cc, cc)
      ]

  closed-sign_in :
      (q : Query Me) (path : Text) (s : Option Screen)
      → gate q ≡ s
      → app matches q path ≡ some (closed sign_in)
      → s ≡ some sign_in
  unfolding app
  closed-sign_in q path none h k = absurd (ground (arith, h, k))
  closed-sign_in q path (some sign_in) h k = refl
  closed-sign_in q path (some (message t b)) h k = absurd (ground (arith, h, k))
  closed-sign_in q path (some (console you)) h k = elim (Option-cases (find_route matches path)) [
    | inl none_there ↦ absurd (ground (arith, h, k, none_there))
    | inr (other, there) ↦ absurd (ground (arith, h, k, there))
  ]

  app-sign_in :
      (q : Query Me) (path : Text)
      → gate q ≡ some sign_in
      → app matches q path ≡ some (closed sign_in)
  unfolding app
  app-sign_in q path h = rw (app, h) refl

  Occurs-nav_items : (i : NavItem) → Occurs i nav_items → (r : Route) × Occurs (i.to, r) route_tree
  unfolding nav_items route_tree
  Occurs-nav_items i (inl e) = rw (e) (_, inl refl)
  Occurs-nav_items i (inr (inl e)) = rw (e) (_, inr (inl refl))
  Occurs-nav_items i (inr (inr (inl e))) = rw (e) (_, inr (inr (inl refl)))
  Occurs-nav_items i (inr (inr (inr (inl e)))) = rw (e) (_, inr (inr (inr (inl refl))))
  Occurs-nav_items i (inr (inr (inr (inr (inl e))))) = rw (e) (_, inr (inr (inr (inr (inl refl)))))
  Occurs-nav_items i (inr (inr (inr (inr (inr (inl e)))))) =
      rw (e) (_, inr (inr (inr (inr (inr (inl refl))))))
  Occurs-nav_items i (inr (inr (inr (inr (inr (inr e)))))) = absurd e

  nav_route :
      (i : NavItem)
      → ((t : Text) → matches t t ≡ true)
      → Occurs i nav_items
      → (r : Route) × (find_route matches i.to ≡ some r)
  unfolding find_route
  nav_route i own o =
      let (r, there) = Occurs-nav_items i o in
      let (x, found) = find?-hit (λ r. matches r.0 i.to) (i.to, r) route_tree there (own i.to) in
      (x.1, ap (λ (o : Option (Text × Route)). elim o [ none ↦ none | some r ↦ some r.1 ]) found)

  -- A screen is shown exactly at a path that has one, and exactly when the query for the session has
  -- succeeded, for the user that it brought; the page to sign in is shown, at every path, exactly when
  -- that query has failed with a 401. Every item of the navigation leads to a screen. This takes a
  -- router for which each path matches itself.
  pub app_lem :
      (q : Query Me) (path : Text)
      → ((t : Text) → matches t t ≡ true)
      → ((me : Me) (r : Route)
          → (app matches q path ≡ some (opened me r))
            ↔ ((q.status ≡ succeeded) × (q.loaded ≡ some me) × (find_route matches path ≡ some r)))
        × ((app matches q path ≡ some (closed sign_in))
            ↔ ((m : Text) × (q.status ≡ failed (api_error 401 m))))
        × ((me : Me) (i : NavItem)
            → q.status ≡ succeeded
            → q.loaded ≡ some me
            → Occurs i nav_items
            → (r : Route) × (app matches q i.to ≡ some (opened me r)))
  app_lem q path own =
      let (inside, outside) = gate_lem q in
      (
        λ me r. (
          λ h.
              let (shown, found) = opened-console q path (gate q) me r refl h in
              let (status, loaded) = (inside me).0 shown in (status, loaded, found),
          λ (status, loaded, found). app-console q path me r ((inside me).1 (status, loaded)) found,
        ),
        (
          λ h. outside.0 (closed-sign_in q path (gate q) refl h),
          λ h. app-sign_in q path (outside.1 h),
        ),
        λ me i status loaded there.
            let (r, found) = nav_route i own there in
            (r, app-console q i.to me r ((inside me).1 (status, loaded)) found),
      )
