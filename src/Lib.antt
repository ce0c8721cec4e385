-- ===== src/Lib.antt =====
-- Atrium, a media server. Its core decides what the files of a library are, what a scan changes,
-- who may log in, which sessions a caller sees, and which route a request path names. Each of
-- these parts is a function of values, or a sequence of calls of a store, and is modelled whole
-- here.
--
-- The parts and their files:
-- - Scan: internal/scan/reconcile.go. `reconcile` is `Reconcile`: from the items that are stored
--   and the items that a scan derived, the ones to add, to change, to keep and to remove, or the
--   refusal of a changed identifier. The maps by identifier and by path are functions. Its data are
--   those of internal/ports/items.go (Ports.Items); its order is `SortItems` of
--   internal/library/resolve.go, over the insertion sort of Sorting.
-- - Sessions: internal/sessions/visible.go and internal/sessions/ceiling.go. `visible` is `Visible`
--   and `evictions` is `Evictions`, over the sessions of internal/ports/users_and_sessions.go
--   (Ports.Accounts).
-- - Users.Password, Users.Policy, Users.Login: internal/users/password.go, policy.go and login.go.
--   `authenticate` is `Authenticate`, a chain in the monad of Users.Login.Monad. Its state is the
--   store, the derivations counted and how often the driver, the clock and the random source were
--   called; its environment says which call of the driver fails and what the others answer. What
--   `init` drew for the decoy is an argument.
-- - Users.Store: internal/store/sqlite/users.go. The login calls these operations. A table is the
--   list of its rows, and a statement that fails leaves it as it was.
-- - Tables: a table as the list of its rows, and the statements that the stores below run on it.
-- - Sessions.Store: internal/store/sqlite/sessions.go. `open_session`, `close_session` and the
--   others are the methods of those names, each a transaction that fails with nothing changed.
--   Refinement states what the tables promise: a map from sessions to their bearers.
-- - ItemStore: internal/store/sqlite/items.go. `apply_scan_batch`, `remove_items`, `claim_scan` and
--   `release_scan` are the methods of those names, on the items, their files and the scans.
-- - Scan.Scanner: internal/scan/scan.go. `scan` is `Scanner.Scan`: it reads the items of ItemStore
--   and the roots, calls `reconcile`, claims the library and writes the batches and the removals.
--   Its environment says which call of the driver fails and what the walk, the resolver and the
--   clock answer. Scan.Scanner.Stored is the scan over the resolver of Library.Resolve.
-- - Library: internal/library, what the files of a library are. SortKey is sortkey.go (on code
--   points) and Identity is identity.go (on bytes, like all that follows). Candidates is library.go
--   and extras.go, Names is names.go, Parts and Films are movies.go, TrackNames and Tracks are
--   music.go; Numbering, SeasonNames, ShowNames and Episodes are shows.go, and Resolve is
--   resolve.go. `resolve_with_tags` is `ResolveWithTags`:
--   it sorts what was read, passes over what `candidate` refuses, and has `resolve_movies`,
--   `resolve_shows` or `resolve_music` make the items. A map whose keys are only looked up is the
--   list of its entries in the order they were made. Data holds what the scan shares with it, Bytes
--   the calls of strings and path, and Tools the parameters and the answers: a result, an error, or
--   a slice out of range or a missing entry of a map that is used as if it were there.
-- - Paths: internal/httpapi/path.go. `new_path_folder` compiles the table of routes, and
--   `canonicalise` is `Canonicalise`. A slice out of range is an answer of its own.
-- - Queries: internal/httpapi/query.go. `new_query_folder` and `canonicalise_query` are
--   `NewQueryFolder` and `QueryFolder.Canonicalise`, over the folder of Paths.
-- - Credentials: internal/httpapi/authreader.go. `parse_client_identification` and
--   `presented_token` are the functions of those names.
-- - Base, Text and Sorting: the numbers, lists, options and texts that they share. A text is the
--   list of its bytes. An `int` is an integer with its wrap-around to 64 bits written out where a
--   computation can reach it.
--
-- Parameters: Argon2id and base64 (Users.Password.Crypto), encoding/json (Users.Policy.Codec),
-- the Unicode folds of the package strings, `url.QueryUnescape`, the tables of unicode and norm
-- (Library.SortKey.Unicode, Library.Identity.Folding), SHA-256 with hex
-- (Library.Identity.Digest), the coding of UTF-8 and the calendar (Library.Tools.Tools), the tags
-- of a file (Library.Tracks.TagSource), and the walk, the resolver and the coding of a summary
-- (Scan.Scanner.Surroundings). What is used of their documents is a hypothesis by name:
-- Users.Password.Documented, Users.Password.Decoy.Sized and Users.Login.Lockout.Lawful.
--
-- Fuel: a decimal numeral is printed with fuel that its lemmas show to be enough; a segment of a
-- path is compiled with its length as fuel, and each turn consumes a brace. The chunks of a
-- removal and the batches of a scan have the number of their elements as fuel; a batch size of
-- zero, which `New` never gives, is the error `endless`.
--
-- Not modelled: the walk of the file system, the JSON of the wire, the handlers of net/http, the
-- stores of libraries, of the installation and of the data of a user on an item, the rebuilding
-- of the derived tables, and the slots that bound concurrent derivations. The texts of errors are
-- left out; an error is its kind.
pub mod Base
pub mod Text
pub mod Sorting
pub mod Tables
pub mod Library
pub mod Ports
pub mod Scan
pub mod Sessions
pub mod ItemStore
pub mod Users
pub mod Paths
pub mod Queries
pub mod Credentials
