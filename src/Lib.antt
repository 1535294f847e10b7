-- ===== src/Lib.antt =====
-- The frontend of gourl, a link shortener: the admin console in the browser, which is also the
-- mobile app. It is TypeScript under frontend/src. The console talks to the server through one
-- API client; its pages keep their state in React hooks and hand work to dialogs.
--
-- How the code is modelled. A component's state is a record with one field for each `useState` and
-- `useRef`; a handler is a function from the state to the state and a list of effects (toasts,
-- calls to the parent, invalidated queries). An awaited call cuts a handler in two: the part up to
-- the request, and the part that is given the outcome. Where a closure of an earlier render
-- matters, the render's values are an argument. Texts are lists of UTF-16 code units, numbers are
-- natural numbers, and integers where the code can see a negative one.
--
-- Which file models which part:
--   Common, Platform   shared helpers; strings, dates and decimals as JavaScript has them
--   Markup             what a page shows: its texts and controls, each with the event it raises
--   Batch, Batch/Dates frontend/src/lib/batch.ts, and parseDate of components/DateInput.tsx
--   BatchDialog        frontend/src/components/BatchCreateDialog.tsx: handlers, View
--   CodeEditor         frontend/src/components/CodeEditor.tsx, with the token function of
--                      frontend/src/lib/batchHighlight.ts (Highlight, Progress), the lines that
--                      BatchDialog flags (Flags), and Setup (mounting, the listener)
--   Csv                frontend/src/lib/csv.ts
--   Api                frontend/src/lib/api.ts: Types (interfaces), Storage (localStorage), Server
--                      (the stored connection, trusted origins), Urls (linkUrls, encodePath),
--                      Request (request), Endpoints (the table of calls), Stream (logStream
--                      of the app, and Source: its two modes)
--   Links              frontend/src/pages/Links.tsx: handlers, View (rows and pager), Controls (all
--                      other controls), Sets, Choice (runs), Deletion (what is sent)
--   Settings           frontend/src/pages/Settings.tsx: Fields (list texts), Autosave (save and
--                      onSettled over runs), Connection and Probes (the probe), Tokens
--                      (TokenSection), Form, Cards and Page (what is shown)
--   LinkForm           frontend/src/components/LinkFormDialog.tsx, DateField: DateInput.tsx, View
--   Import             frontend/src/components/ImportDialog.tsx: handlers, View
--   Export             frontend/src/components/ExportDialog.tsx: handlers, View
--   QrCode             frontend/src/components/QRDialog.tsx: Card (the picture), View
--   Logs               frontend/src/pages/Logs.tsx: History (loadMore), Filter (filter, export),
--                      View
--   Layout             frontend/src/components/Layout.tsx: Drawer (the swipe), Theme, Shell (the
--                      frame of every page)
--   Ui                 frontend/src/components/ui.tsx: Dialog, Snapshot (its kept content),
--                      Select, Toasts, Controls
--   Auth               frontend/src/pages/Connect.tsx, Login.tsx, Setup.tsx, ChangePassword.tsx;
--                      Forms (what they show), Session (the requests after connecting);
--                      Routes and Start: frontend/src/App.tsx
--   Device             frontend/src/lib/appSettings.ts, i18n.ts, clipboard.ts, share.ts,
--                      download.ts, apiError.ts, haptics.ts
--   LocalStorage       the store that Api, Device, Layout and Auth share, as one memory
--   Dashboard          frontend/src/pages/Dashboard.tsx
--   DbExport           scripts/db-export.mts
--   Backend            the ends of the Go server that the console talks to: Codes (Validate,
--                      IsReserved and Random of internal/shortcode/shortcode.go), Items (resolveCode
--                      and lenientItem of internal/api/batch.go), Batch (batchCreate of that file:
--                      Sorting, Order, Counts and Answers lead to what it answers, Request, Dialog
--                      and Accepted join it with the console), Export (exportCSV of
--                      internal/api/export.go, and the way back through the import dialog),
--                      Addresses (addressedCode of internal/api/links.go), Targets (the tests
--                      of targets of that file; ShortUrls joins them with Api/Urls), Update
--                      (updateLink of that file; Edit and Day join it with LinkForm), Logs
--                      (logStream and logHistory of internal/api/logs.go, ReadHistory of
--                      internal/logx/logx.go)
--   Examples           runs at concrete inputs, one for each result
--
-- How the parts meet: BatchDialog and Import call the parsers of Batch and Csv; Links takes its
-- short URLs from Api/Urls; Auth/Connect stores through Api/Server; Layout/Theme and Auth/Routes
-- read the same stored theme. CodeEditor shows what BatchDialog validates; Links sends its deletions
-- by Api/Endpoints; every page is a list of the nodes of Markup. Across the network, BatchDialog
-- reads what Backend/Batch answers, Import loads what Backend/Export writes, Logs
-- and Api/Stream read what Backend/Logs sends, and Backend/Addresses
-- finds the code that Api/Urls puts into an address.
--
-- Parameters, since the code is not the repository's: `new URL`, the time zone behind `Date`,
-- `JSON.parse` and `JSON.stringify`, `encodeURIComponent`, `toLowerCase` of arbitrary text, the
-- native bridge, the answers of the server, CodeMirror with its documents and streams, SQLite, the
-- file system, the browser's EventSource and the router's test of a path; of the server its
-- database, net/http, net/url, random bytes, how a log line is read, and which fields
-- csv.Writer quotes.
--
-- Fuel: the loop over the frames of the event stream runs on the length of its buffer, since a
-- round takes two units at least; the loop over the tokens of a line on the length of the line,
-- since each token moves on; the loop that joins the chunks of a download on the number of
-- bytes; the printer of decimals on the number itself. Every other loop is a recursion on its
-- list.
--
-- Not modelled: layout, styles and drawn icons, coordinates of menus, the query cache, the JSON
-- colours of CodeMirror, the canvas and the chart that libraries draw, errors of the file system
-- while the export script writes, time zones that skip a whole day, years beyond the range of
-- `Date`, negative coordinates of touches, and all that is not TypeScript, except for the ends of the Go
-- server named above: the rest of internal and cmd, the Android shell, build files and locales.
pub mod Common
pub mod Platform
pub mod Markup
pub mod Batch
pub mod Api
pub mod BatchDialog
pub mod CodeEditor
pub mod Csv
pub mod Links
pub mod Settings
pub mod LinkForm
pub mod Auth
pub mod Backend
pub mod Logs
pub mod Ui
pub mod Layout
pub mod Device
pub mod Import
pub mod Export
pub mod QrCode
pub mod LocalStorage
pub mod Dashboard
pub mod DbExport
pub mod Examples
