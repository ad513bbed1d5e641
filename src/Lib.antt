-- ===== src/Lib.antt =====
-- Starbies Schedule Sync: the web client (web/src), the scraper (scraper/scrape.js), and the parts
-- of the server (cmd/app, internal) that they meet.
--
-- The client starts in App.tsx: it asks the server who is signed in, then shows a page by the path
-- and by what the user may see. Every page talks to the server through lib/api.ts, whose `request`
-- also sends the browser to the login page on a 401 and to "/" on a bot barrier. A new user goes
-- from the login page to the onboarding page, which stores credentials and polls the first scrape;
-- from then on the dashboard lists the shifts and the link of the calendar feed. The shifts come
-- from the scraper, a script that the server runs: it asks the server for the credentials, drives a
-- browser through the login of the portal, collects the weeks of the schedule from the portal's
-- answers, and posts either the shifts or a report of its failure. On the server, middlewares stand
-- before each handler; they find the user by the session that a verified PIN has opened, or let only
-- internal addresses pass. The credentials are kept encrypted until the scraper asks for them, and
-- the shifts are served as a document to the dashboard and as a calendar to its subscribers.
--
--   Browser        location, session storage and settled promises. A function that awaits takes the
--                  browser to a result and the browser, `catch` and `>>=` as in the source.
--   Api.Types      the interfaces of lib/api.ts
--   Api.Request    `request`, `handleBotBarrier`, and `errorMessage` of lib/utils.ts
--   Api.Endpoints  the object `api`: path, options and redirect flag of each call
--   Api.Cache      `cached`: promises by number, and events that settle them in any order
--   App.Boot       the effect of `App` on mount and `onLogin`
--   App.Routes     routes and guards, with each `Navigate` followed
--   App.ReturnPath `ReturnPathRedirect`
--   Login          pages/Login.tsx: handlers, a step relation with the requests under way, the
--                  form shown
--   Onboarding     pages/Onboarding.tsx: handlers, a step relation with overlapping polls, the card,
--                  and the time after the page is left
--   CredentialsForm  components/StarbucksCredentialsForm.tsx
--   Screenshots    components/ScreenshotTimeline.tsx
--   Dashboard      pages/Dashboard.tsx: relative times, shift lists, the requests on mount
--   ScrapeLogs     the log list of pages/Settings.tsx, which pages/Admin.tsx repeats
--   Settings, Admin  the handlers of those pages, and what they show
--   IcsSubscribeLink, AppFooter  the components of these names
--   Server.Routes  the routes that cmd/app/server.go registers, with their middlewares
--   Server.Guards  these middlewares, run before each handler
--   Server.Tables  a table of SQLite as a list of rows
--   Server.Accounts  users and sessions: internal/auth/session.go, and the handlers of
--                  cmd/app that change them
--     SignIn       `requestPin` and `verifyPin`, and all of these as a history of requests
--   Server.Vault   the credentials: internal/crypto/envelope.go, `getOrCreateDEK`,
--                  `writeCredentials` and `LoadCredentials`
--   Server.Calendar  the calendar feed: internal/calendar/ics.go
--     Feed         `queryUserShifts`, `serveICS`, `getICSURL` and `getSchedule`
--   Server.Pins    `PinStore` of internal/auth/pin.go, which the login page asks
--   Server.Limits  `RateLimiter` of internal/auth/ratelimit.go
--   Server.Scrapes the tables of a scrape, and the callbacks of cmd/app/handlers_scrape_callback.go
--     Callbacks    the reports of the scraper, the retries and the plan of the next scrape
--     Service      `scrapeForUser`, reaping and retention of internal/scraper/service.go
--     History      these as whole steps, one after the other
--   Server.Statuses  what users and admins see of the scrapes: cmd/app/handlers_scrape_status.go and
--                  cmd/app/handlers_admin.go, up to the poll of the onboarding page
--   Scraper        scraper/scrape.js
--     Schedule     `mergeScheduleData` and `extractShifts`
--     Answers      `findSecurityAnswer`
--     Script       what the script keeps (log, screenshots, captured weeks, posts, the clock), its
--                  async functions as functions on that state, and the browser it drives
--     Page         `pollUntil` and the helpers on a page
--     Job          the API calls, `run` in its steps, the report of a failure and the exit status
--   Base, Fixtures shared helpers, and concrete data for the tests
--
-- Parameters: the network is a function from an endpoint and its call to a reply, read at the type
-- that the caller expects (the source casts `res.json()` without a check); `Date` is a function from
-- a text to milliseconds or none; `JSON.parse` is a function to an array, another value or an error;
-- the router is a function from paths to routes, of which the four paths that the client navigates
-- to are known; `toLocaleString` is a function on texts; the clock is an argument. For the
-- scraper, Puppeteer, the portal and `fetch` are one record of functions on a state of the outside
-- world: each gives a result or an error, takes some time, and may deliver answers of the portal,
-- which are read by the end of the operation that is awaited; `toLowerCase` is a function. For the
-- server, `strings.ToLower`, SHA-256, AES-GCM, JSON, the zones, parsers and formats of `time`, the
-- address of a client and the internal networks, and what becomes of a container are functions;
-- random ids, keys, nonces, tokens and jitter are arguments. Texts are native strings, and lists of
-- code points where the server walks them; counts and times of the polling are natural numbers,
-- dates integers.
--
-- Bounds: following redirects takes the number of renderings as fuel, and two redirects are
-- proved to be enough; `pollUntil` takes two rounds more than its limit in milliseconds, and
-- since every round waits these are proved to be enough; all else recurs on lists or on
-- derivations. Step relations allow more than the browser does where that keeps them small, for
-- instance replies at any time and in any order. The scraper's `Promise.all` runs its two
-- operations one after the other.
--
-- Not modelled: layout and styling, the static pages, the wrappers of components/ui, validation by
-- the browser (`required`, `pattern`), pages other than the onboarding page once they are left, and
-- the rest of the server: its start, the mail, the static files, Docker, failures of SQL, and the
-- interleaving of the statements of two handlers or goroutines.
mod Base
mod Fixtures
pub mod Browser
pub mod Api
pub mod App
pub mod AppFooter
pub mod Onboarding
pub mod CredentialsForm
pub mod Screenshots
pub mod Login
pub mod Dashboard
pub mod ScrapeLogs
pub mod Settings
pub mod Admin
pub mod IcsSubscribeLink
pub mod Scraper
pub mod Server
