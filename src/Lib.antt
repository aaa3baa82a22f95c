-- ===== src/Lib.antt =====
-- oidc-proxy: an authenticating forward-auth proxy with an OAuth 2.1 authorization server for MCP.
--
-- The program has a browser side and a resource-server side. On the browser side the reverse proxy
-- asks /verify for every request; the ID token cookie is verified by go-oidc behind a cache. On the
-- resource-server side clients register or name a metadata document, obtain a code, redeem it at
-- /oauth2/token, and the reverse proxy asks /mcp-verify for every request with a bearer token. The
-- artifacts of the authorization server (client_id, consent blob, code, access and refresh token)
-- are signed or encrypted texts, so that the server keeps no state but its caches.
--
-- Where what is modelled:
-- - Base: numbers, lists, texts as byte lists, results of fallible functions, int64 arithmetic.
-- - Http, Url: what the program reads of requests, and Go's `url.Parse`, `Hostname`, `QueryEscape`,
--   `QueryUnescape`, `ParseQuery` and `Encode`.
-- - TtlCache: the interface of the package ttlcache, a parameter with laws, and in Table a cache that
--   meets them. Mcpauth/Jose: the same for go-jose.
-- - Token: internal/token/token.go. Cache: internal/cache/cache.go (`New`, `Wrap`).
-- - Utils: internal/utils/http.go.
-- - Mcpauth/ReplayGuard: internal/mcpauth/store.go. Mcpauth/Pkce: internal/mcpauth/pkce.go.
--   Mcpauth/Keys: internal/mcpauth/keys.go, with the crypto packages as a parameter in Keys/Load.
--   Mcpauth/Claims and Mcpauth/Artifacts: internal/mcpauth/artifacts.go. Mcpauth/RedirectUri and
--   Mcpauth/Cimd: internal/mcpauth/cimd.go, and Mcpauth/Dial its dial guard. Mcpauth/Scope,
--   Mcpauth/Client (`ResolveClient`), Mcpauth/Resource, Mcpauth/Metadata, Mcpauth/Options (`New`) and
--   Mcpauth/AuthServer: internal/mcpauth/mcpauth.go.
-- - Web/RateLimiter: internal/web/ratelimit.go. Web/Register, Web/Authorize, Web/Token,
--   Web/McpVerify and Web/Discovery: internal/web/mcp.go. Web/Response: the data of its pages and
--   their headers, of internal/web/mcp_templates.go. Web/Session: internal/web/session.go.
--   Web/Handlers and Web/Access: internal/web/handlers.go. Web/Pages: internal/web/handlers.go and
--   the data of internal/web/templates.go. Web/Routes: internal/web/server.go, the routes and the
--   whole server as one state.
-- - Config: internal/config/config.go and `buildAS` of cmd/oidc-proxy/main.go.
-- - Examples: the theorems at concrete inputs, and runs.
--
-- State is passed explicitly: a function that changes a cache, a limiter or the stream of random
-- identifiers takes it and returns it. The time is an argument, in nanoseconds. No function needs
-- fuel: loops are recursion on a list. Requests are served one after the other; an operation of a
-- cache or a counter is one step, as the mutexes and atomics of the program make it.
--
-- The authorization endpoint is modelled in Web/Authorize/Get (the request and the consent page) and
-- Web/Authorize/Post (the answer). The target of a redirect with a changed query, `u.String()`, is
-- kept as the text that was parsed and the new query. `fmt.Errorf`'s formatting is a parameter.
--
-- Not modelled: `main`, envconfig, the HTML and JavaScript of the pages (a page is the data that
-- its template renders), the network (a fetch of a metadata document is a parameter), the redirects
-- of `http.ServeMux` to clean paths, cryptography and JSON (parameters), and logging. Unicode
-- beyond ASCII is not folded: `TrimSpace`, `Fields`, `ToLower` and `EqualFold` leave bytes from
-- 0x80 on alone. `http.SetCookie` is modelled in
-- Web/Session/Jar as it sends a value; the names of the cookies are taken to be valid.
pub mod Base
pub mod Cache
pub mod Config
pub mod Examples
pub mod Http
pub mod Mcpauth
pub mod Token
pub mod TtlCache
pub mod Url
pub mod Utils
pub mod Web
