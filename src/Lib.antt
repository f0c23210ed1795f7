-- ===== src/Lib.antt =====
-- Connect: a portal between a Discourse forum and the applications that sign their users in with it.
-- Owners register applications, reviewers decide about them, a worker registers the approved ones as
-- clients of Ory Hydra, and the portal answers Hydra's login and consent requests.
--
-- The parts and their files:
--   Base          What the parts share: tests, texts, Go's maps as association lists, int64 (with the
--                 wrap-around of ++), errors, and `Exec`, a state and a result of which the state
--                 comes back also when the result is an error.
--   Domain        internal/domain: statuses and transitions (validTransition is valid_transition),
--                 the application, users, events, consents, the checks of input. A time is a number
--                 of nanoseconds since Go's zero time, a duration an integer.
--   Store         internal/store/memory: each repository is the state its mutex guards, each method
--                 a function of it. Calls therefore do not interleave inside one another; histories
--                 of calls are step relations (Store/Outbox/History).
--   Session       internal/session: memory.go in Memory, csrf.go in Csrf, http.go and cookie.go
--                 in Http. MarkHomeVerified and Touch are `refresh` with and without a change. The
--                 context is the error that it holds, if any.
--   Oauth         internal/oauth/login.go: the scope filter in Scopes, the check of a login request in
--                 Request, the parser of an authorization request in Parse. login_service.go is
--                 Login, consent.go is Grant and Consent, userinfo.go is UserInfo, each a service
--                 over the portal's world, http.go is Http; LoginSafety, ConsentSafety, Granted,
--                 ConsentEnd, Withdrawn, Scoped, Released and Decided say how their calls end.
--   Hydra         internal/hydra/client.go: the interface to Hydra, over a state of Hydra's own.
--   Identity      internal/identity: provider.go (what a user's status allows) in UserSnapshot and
--                 StatusSnapshot, discourseconnect.go in Nonces and Verifier, with the clock readings
--                 of the two apart. Directory is what the services share, the user repository and
--                 Discourse; status.go and access.go are Refresher, EnsureShadowUser is Shadow, the
--                 rest of sso.go is SsoChecks (URLs, signatures, payloads) and Sso (the states, a call
--                 at a time), events.go is Events, level_progress.go is Progress and ProgressLookup.
--                 A handler answers a status and an error (Base.Handler).
--   Portal        The services' view of the world: the repositories, Hydra and the users, and an
--                 environment that decides for each step the time, the random text, and whether the
--                 database fails before it does anything. Triple holds the rules for what an action
--                 leaves of the applications, on success and on failure. Page is what the pages share.
--   Apps          internal/apps: Input and Deps hold what the service's operations share, Service
--                 CreateDraft, UpdateDraft and Submit, Secrets the operations on approved
--                 applications and Delete, Provisioner RunOnce. Evolution and its children show what
--                 each does to the applications.
--   Reviews       internal/reviews: Service is service.go, and Evolution what its decisions do to the
--                 applications; Forms and Http are the pages of http.go, Decided, Overview and
--                 OverviewPage what their answers show.
--   Turnstile     internal/turnstile/validator.go, with the service that it asks as a parameter.
--   Connect       The operations of Apps and Reviews as the actions of one portal.
--
-- Parameters: url.Parse, net.ParseIP and strings.ToLower (Domain.Library), the hash of a session id,
-- HMAC-SHA256 and base64 (Session.Csrf.Keyed), hex and strconv (Identity.Verifier.Signing), the rest
-- of net/url and base64 (Identity.SsoChecks.SsoLibrary), the JSON decoder of events, the secret box,
-- Hydra, Discourse, the caches, the status lookup, the access controller and the environment. Nothing is
-- assumed of them but that decoding undoes the encoding in base64 and hexadecimal, that the ids of
-- enqueued events and the subjects of new users are new, and that a failing database does not report a
-- missing user, each where a statement says so.
--
-- Bounds: no loop needs fuel; all are structural recursion over a list. Ranges over Go's maps visit
-- the entries in the list's order, which no statement fixes. sort.Slice is insertion sort, one of the
-- orders that it allows among equal times. The texts of wrapped errors are shortened.
--
-- Not modelled: the PostgreSQL and Redis stores and the Ory client (calls of other programs), the
-- HTTP handlers of internal/apps, templates and routing, configuration, assets, the HTTP client for
-- Discourse, OAuth discovery, the cipher of internal/secrets, and the Ruby plugin for Discourse.
pub mod Base
pub mod Domain
pub mod Store
pub mod Turnstile
pub mod Session
pub mod Oauth
pub mod Hydra
pub mod Identity
pub mod Portal
pub mod Apps
pub mod Reviews
pub mod Connect
