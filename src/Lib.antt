-- ===== src/Lib.antt =====
-- Verification of the request path of Surmount Server (crates/management-ui/src): who a request
-- comes from, how often it may come, whether it is banned, who is logged in and what they may do,
-- and where plain HTTP and the public hosts are sent.
--
-- Parts and files, with the code that each models:
-- - Prelude, Assoc, Text and Net hold what the parts share: equality as an interface, results with `?`,
--   maps as lists of entries, Rust's str as the list of its code points (Text, Text.Chars, and Text.Utf8
--   for its bytes), and IP addresses as numbers.
-- - RateLimit: rate_limit.rs, the fixed-window limiter. `check` is the method of that name; a limiter is
--   a record, and a call returns its answer and the limiter after it. Child modules: the invariant, what a
--   call decides, what a run of calls admits, and the waiting time of a refusal.
-- - ClientIp: client_ip.rs, the key of a request.
-- - Ban: ban.rs. Ban holds the policies, the decisions and the interface BanBackend with its laws;
--   Ban.Signals what follows for any backend; Ban.Cidr the whitelist; Ban.Memory the store and its state
--   file; Ban.Nft the backend that mirrors bans to the host's firewall; Ban.Config the configuration
--   from the environment and its gate; Ban.Guard the object that the edge holds.
-- - NftHelper: nft_helper.rs, the protocol with the privileged helper and the helper's side of it;
--   NftHelper.Client the two transports; NftHelper.Wire both ends of the socket together.
-- - Redirect: redirect.rs, the host of a request; Redirect.Surface what a host reaches;
--   Redirect.Location the upgrade to HTTPS and its listener; Upgrade, Target, Routing and
--   Port their theorems.
-- - Onion: onion_discovery.rs, onion hosts and mappings; Onion.Build the table of the process, Onion.Headers
--   the headers of a response; Onion.Laws and Onion.Mail their theorems.
-- - Auth: auth.rs. Auth holds the configuration, the errors and the allowlist; Auth.Listen the gate at the
--   start; Auth.Nip98 signed events; Auth.Session the session cookie; Auth.Csrf the tokens bound to it;
--   Auth.Cookie the headers that carry both; Auth.Next the address after a login and the public paths.
-- - Console: console_accounts.rs. Console holds the rows, the edits and the roles; Console.Store the file
--   with its load and save; Unique, Fold, Laws and Grant the theorems on edits.
-- - MtaSts: mta_sts.rs, the mail policy. Sites: apex_static.rs, the path of a static file; Sites.Apex the
--   middleware of main.rs that serves the policy, the static files and the public page; Sites.Public what an
--   apex host answers.
-- - Edge: main.rs, the middleware that joins the limiter, the bans and the router in front of every
--   route, the hook for failed logins and the handler of plain HTTP. Edge.Steps holds its two halves,
--   Edge.Client and Edge.Laws the theorems.
-- - Gate: main.rs, the middleware in front of the console, which joins Auth, Console, Ban and the router:
--   the identity of a request, the administrators' paths, and who is banned for a bad credential.
--   Gate.Login holds the routes that make and end a session, Gate.Forgery the guard of the routes that
--   change something; Gate.Sessions and Gate.Remembered follow a session from the login to a later request.
-- - Modules called Tests and Samples run the theorems on concrete inputs.
--
-- How code corresponds: functions keep their names; a method that changes state takes the state and
-- returns the new one with its result. Times are counts of nanoseconds in the limiter and the bans
-- and of seconds in sessions, a HashMap or BTreeMap is a list of entries in which a key is replaced
-- in place, a mutex or a file lock is left out since each call holds it throughout, and an error is
-- a constructor where the code builds a message. Machine integers keep their width where it
-- matters: the limiter's count wraps at 2^32, prefixes are masked at 32 and 128 bits, and the end
-- of a session stops at 2^64 - 1. A router or a route's own work is a function of the state, which
-- the middleware runs or does not. Steps of file I/O that may fail are Booleans in a record (Env,
-- Steps), so that a theorem covers each failure. The only fuel is that of `digits`, which prints a
-- port or a u64: they have at most five and twenty digits. The retry loop of `spawn_nft_helper` is
-- recursion on the attempts that are left.
--
-- Parameters, for code outside the repository: the grammar of IP addresses (IpSyntax), serde_json
-- (StateJson, WireJson, AccountsJson), the nft program (NftExec), sockets and processes (Socket,
-- ChildRun), the file system (Env, Disk, Files), nostr events and keys (Nostr), base64, HMAC and
-- the text of a session (Sealing), the printing of numbers, header values and random tokens (Wire,
-- HeaderValues), the two reads of the account map that a request makes (Portal), and the router
-- behind the middleware. What a theorem relies on of them is among its hypotheses: ParsesPrinted,
-- ReadsWritten, AddsElements, Carries, ReadsBack, and Seals, which says that every secret makes a
-- MAC, that what is fed in parts counts as one text, that verify_slice is equality with the tag,
-- that decoding inverts encoding and both use URL-safe characters only, and that a session is read
-- back from its JSON; tags and JSON are not empty.
--
-- Not modelled: the pages and the bodies of the API, TLS, the proxies, the files that onion
-- mappings are read from and the rewriting of onion requests, the mail directory, and the other
-- crates, which are command-line tools; the main program of the helper, and the running of the nft
-- process. Log lines and the reasons shown for a login page are left out. A stored time that is too
-- large for SystemTime, at which loading panics, is not modelled either, nor the name of the
-- temporary files; a temporary file whose write fails is empty in the model.
pub mod Prelude
pub mod Assoc
pub mod Text
pub mod Net
pub mod ClientIp
pub mod RateLimit
pub mod Ban
pub mod NftHelper
pub mod Redirect
pub mod Onion
pub mod Auth
pub mod Console
pub mod MtaSts
pub mod Sites
pub mod Edge
pub mod Gate
