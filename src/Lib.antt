-- ===== src/Lib.antt =====
-- The TypeScript of Agentic Warden: the web site in web/ and the admin console in console/src/.
--
-- The two are programs of their own. The web site renders the documentation from Markdown files,
-- sends demo requests by mail and describes itself to search engines. The console is a page that
-- talks to the control plane by requests (console/src/api.ts); it reads the machines, the groups,
-- the audit log and the policy revisions, and sends revisions, enrollment tokens and revocations.
--
-- The files and the code that they model:
-- - Prelude: texts as lists of UTF-16 code units (`units` of a string literal), the functions of
--   JavaScript on texts and lists that the source calls, tests into Bool, whole numbers with a sign.
-- - Platform: the operations of the platform that the web site uses and that are not in the
--   repository: its floating-point numbers, `toLowerCase` and the letters of Unicode.
-- - View: what a React component returns, as a list of tokens; the events that it offers, and in
--   View/Links the addresses of its links and the defaults of its controls.
-- - Site/Env: web/lib/env.ts. `siteUrl` is `site_url`, `assertBuildEnv` is `assert_build_env`.
-- - Site/Demo: web/lib/demo and web/app/demo/actions.ts. `submitDemo` is `submit_demo`, which
--   returns the state of the page and the effects in their order; Demo/Form is
--   web/components/demo/demo-form.tsx. Form/Browser says what a browser posts for such a page as it
--   stands, and Form/Retry puts the page and `submit_demo` together.
-- - Site/Docs: web/lib/docs.ts, one module for each of its parts (the head of a page, navigation,
--   images, links, headings), with web/app/docs and web/components/docs-nav.tsx in Docs/Page and
--   Docs/Layout, `renderMarkdown` in Docs/Markdown and web/components/docs-copy.tsx in Docs/Copy.
--   Frontmatter/Loaded is about `loadDocs` as a whole.
-- - Site/Seo: web/lib/seo.ts, web/lib/headers.ts, web/app/sitemap.ts, robots.ts and llms.txt.
-- - Site/Pages: the frame of every page (web/app/layout.tsx and what it is made of), the home, product
--   and pricing pages with their texts in web/content, web/app/demo/page.tsx, and the social images of web/lib/og.tsx.
-- - Console/Types, Api, Format, Theme: console/src/types.ts, api.ts, lib/format.ts and theme.ts.
-- - Console/Session: console/src/app.tsx and the frame in console/src/router.tsx. `Gate` is `gate`,
--   and Session/Lost follows `onError` of the query cache from failure to failure.
-- - Console/App: `App`, the routes of console/src/router.tsx and console/src/main.tsx.
-- - Console/Policy: console/src/policy and console/src/screens/policy.tsx. `NewRevision` is the step
--   function `draft_step` on `DraftState`; Draft/Page is what it shows, and Draft/Clicks reads off that
--   page when "Apply revision" can be clicked. Policy/Editing is policy/editor.tsx together with
--   the form: `editing_step` runs the effects of the editor after each step of the form.
--   Policy/Session is the screen with its query and that form in it, `session_step`; Session/Phases
--   has its runs, and Session/Protocol the protocol that they implement, as indexed data types.
-- - Console/Machines, Groups, Audit, Enrollment, Overview: the screens in console/src/screens.
--   Machines/Runs and Enrollment/Copied have the runs of the dialog and of the form with its clipboard
--   as indexed data types; Overview/Failing reads the alerts off the page.
-- - Examples: runs at concrete inputs.
-- A component with state is a record of its `useState` values and of the status of its request, a
-- data type of events (the handlers of its elements, the answers to its request) and a step
-- function that returns the next state with the effects: requests, query keys that are invalidated,
-- messages to the parent. What it shows is a function of the state. Class names and React keys are
-- left out.
--
-- The names and the laws of what is not in the repository are arguments: the validation library,
-- the mail client, the file system, `node:path`, `fetch`, the parser of YAML, `diffLines`, the
-- reading and the writing of times, `localeCompare`, `encodeURIComponent`, `JSON.stringify`, and the
-- documents and positions of CodeMirror.
--
-- Fuel: the writing of a number in decimal (`decimal` of View) takes one unit for each digit and
-- has one more than the number itself; View/Decimal shows that this is enough. The renderings of
-- the form and its editor that follow one another take one unit each and have two (`rounds`);
-- Policy/Editing/Synced shows that this is enough. Every other function is structurally recursive.
--
-- Bounds: the numbers of the model are whole and unbounded. Times are whole milliseconds, the order
-- of a documentation page is a natural number, the number of a JSON value is the text of its
-- literal.
--
-- Hypotheses on what is not in the repository are named where they stand: `CountsMs` of
-- Demo/Form/Reposted for the numbers of the engine, `WerePosted` of Demo/Form/Retry for what the
-- browser leaves alone in a text, `Serves` of Audit/Pages for the order of the audit log that the
-- server keeps, `FailAgain` of Session/Lost for the queries that the query library sends again,
-- `IsPart` of Policy/Diff/Rows for the parts of the package diff, and the two `CanHappen`, of
-- Policy/Draft/Clicks and Machines/Runs, for the query library: an answer belongs to a request that
-- is under way.
--
-- Not modelled: the libraries React, React Query and React Router beyond their callbacks; the
-- elements of components/ui, which are copies of a component library; the parser of Markdown; and
-- everything that is not TypeScript: the Go programs in cmd/ and internal/, the deployment and the
-- scripts.
pub mod Prelude
pub mod Platform
pub mod View
pub mod Site
pub mod Console
mod Examples
