-- ===== src/Lib.antt =====
-- CAssist: a verification of the browser's side of the program, in frontend/.
--
-- CAssist extracts data from accounting documents. A React application uploads documents straight
-- to private storage, lists them with the state of their processing, and lets a user correct,
-- select and approve what was extracted. It talks to the API through a Pages function that adds a
-- shared secret. The files model these parts:
--
-- - Api: frontend/src/lib/api.js. A request is an action over a log of events (Api/World); the
--   network, the timers, the signals and the user answer by functions of that log, so that an
--   answer may depend on all that went before. `apiRequest`, `responseError` and `csrfRequest` are
--   in Api/Request, the reads in Api/Reads, the mutations in Api/Mutations, `uploadDocument` in
--   Api/Upload, and `csrfMutationQueue`, as a step relation, in Api/Queue.
-- - Proxy: frontend/functions/api/[[path]].js. `onRequest` with its headers (Proxy/HeaderMap); the
--   parser of URLs, random ids and `fetch` are a record of parameters.
-- - Delivery: the two together: what the client sends on the site's own address, as the proxy sends
--   it on. The browser between them is a parameter that puts the path under an address and keeps the
--   headers that the client sets.
-- - Pool: `mapWithConcurrency` of frontend/src/pages/upload-page.jsx, as a step relation over all
--   orders in which the operations settle.
-- - UploadPage: the rest of that page: `selectFiles`, `handleSubmit`, the signals that cancel uploads
--   (UploadPage/Signals), and what it shows (UploadPage/View, UploadPage/Zone). UploadPage/Batch puts
--   the workers of Pool, the uploads of Api/Upload and the items of the page together: a step is a
--   worker that goes on, an upload that tells its progress or stage, or one that settles, is written to its item and comes back to
--   its worker. No other upload is read or written between the last two.
-- - Dashboard: frontend/src/pages/dashboard-page.jsx, dashboard-utils.js and
--   dashboard-document-row.jsx, with frontend/src/lib/polling.js. A row's requests and dialogs are in
--   Dashboard/Requests, the query of the list in Dashboard/Documents, and the bulk deletion with its
--   requests in Dashboard/Bulk.
-- - Review: frontend/src/pages/review-page.jsx and review-components.jsx. The page's requests and
--   the effect on the original are in Review/Requests, its parts in Review/Parts. `EditableValue`
--   is in Review/Editor and Review/Value, and Review/Editable puts it into the page, with its box and
--   the evidence that it points at.
-- - Preview: frontend/src/components/source-preview.jsx. JavaScript's numbers are a record of
--   operations with the laws of IEEE doubles that the code relies on (Preview/Numbers), and the PDF
--   library is a parameter. The loads of a PDF are a step relation over all orders in which they end
--   (Preview/Load), with a viewer of one load at a time as their specification; the drawings of a
--   page and of its text, which may come late too, are events in Preview/Draws.
-- - Shell: frontend/src/App.jsx, with signing out as a step relation (Shell/Logout) and the theme's
--   button (Shell/Toggle), and frontend/src/components/connection-status.jsx. Settings and Compare:
--   frontend/src/pages/settings-page.jsx and compare-page.jsx.
-- - Theme: frontend/src/components/theme-provider.jsx, whose events the shell's button sends.
-- - Prelude: lists, sets and maps over texts, messages, and Boolean tests. Tests: examples.
--
-- A state of a component is a record, and a handler is a function from the state, and what it
-- reads, to the state. A set of JavaScript is a list of its elements in the order of insertion.
-- Texts are compared whole, and are lists of code points where the code walks them; letters change
-- their case on ASCII only. Numbers are natural numbers, but for the previews' geometry: sizes, times
-- and counts are never negative in the code, and where it subtracts, the model says what happens at
-- 0. There is no fuel: all loops of the code run over lists, and the worker pool is a relation with a
-- measure.
--
-- Not modelled: the backend in Python, the markup, the cache of queries, the
-- router's matching of paths, the formats of dates, and generated type declarations. The proxy's
-- URLs for a request are taken to be valid, and its secret to be a valid header value.
pub mod Prelude
pub mod Api
pub mod Proxy
pub mod Delivery
pub mod Pool
pub mod UploadPage
pub mod Dashboard
pub mod Review
pub mod Tests
pub mod Theme
pub mod Preview
pub mod Shell
pub mod Settings
pub mod Compare
