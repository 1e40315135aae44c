-- ===== src/Lib.antt =====
-- PAAC: a verification library for the authorization gateway for LLM applications.
--
-- The program decides, for every prompt, tool call and retrieval, whether a principal may do it. A
-- client's request reaches the gateway (crates/authz-llm-proxy), which finds the principal (auth.rs,
-- with the token adapter and the cache of crates/authz-identity), turns the text or the tool call into
-- a canonical request (crates/authz-llm-bridge, crates/authz-catalog), and asks the engine (engine.rs).
-- The engine evaluates the request in the kernel (crates/authz-core) under the hot bundle, which is the
-- policy revision that was written in the DSL, translated to Cedar, signed and deployed
-- (crates/authz-policy), and puts the decision on the audit channel (crates/authz-store). The command
-- line (crates/authz-cli) synchronises directories, drafts policies from their groups, and takes a
-- policy from its draft to its deployment; crates/authz-gateway is a smaller gateway over the same
-- store.
--
-- The files and what they model:
--   Prelude          names from the libraries, and what the program uses of Rust's standard library:
--                    str methods over native texts (Text), IndexMap as pairs in order (Maps), Result
--                    with a third outcome for a panic (Results)
--   Core             crates/authz-core/src: Error, Ids, Request, Builder, Decision, Entities, Evaluate
--                    (with Context for build_context_json), HotCache for hot_cache.rs and sdk.rs; the
--                    types have the fields of the structs, functions the names of the source, and a
--                    builder's method takes the builder and returns the new one
--   Core/Cedar       what is used of the crate cedar_policy, a parameter
--   Policy           crates/authz-policy/src: Dsl for dsl.rs, Translate for translate.rs and schema.rs,
--                    Sign for sign.rs over the parameter Crypto, Store for store.rs with the files
--                    below the root as a record; Store/Lifecycle has the steps of the store, Store/Drafts
--                    list_drafts
--   Json             serde_json's values and the operations on them
--   Catalog          crates/authz-catalog/src/catalog.rs
--   Bridge           crates/authz-llm-bridge/src: extract.rs, lib.rs and hybrid.rs, over the parameter
--                    Native for f32 and regular expressions
--   Identity         crates/authz-identity/src: Model, Cache with the clock as an argument, Jwt for
--                    JwtOidcAdapter of adapters.rs over the parameter JwtLib, Ldap for LdapAdapter over
--                    LdapLib, Providers for the adapters of idp.rs over HttpLib, Saml for assertions
--                    over Base64, Discover for discover_all_stores, and Drafts for the three generators
--                    of drafts and the policies that they mean
--   Store            crates/authz-store/src/db.rs: the audit channel and the tables; Writer has the
--                    thread that empties the channel, Migrate the versions of migrations.rs, Written
--                    what can be read while the writer is at work
--   Proxy            crates/authz-llm-proxy/src: Error, Config, Auth, Engine, Openai, Agents for mcp.rs
--                    and a2a.rs, State for state.rs and the connectors' calls, Routes for the chat and
--                    Handlers for the other handlers of routes.rs. A handler takes the gateway's state
--                    and returns its answer and the new state; the state also records, in order, what
--                    was sent to the upstream and what the connector executed. Pages has the pages of
--                    routes.rs that only show, Connectors what executes a tool call, Startup what
--                    main.rs does before it serves
--   Cli              crates/authz-cli/src/main.rs: a command takes the files below its paths (World) and
--                    returns its result with the files it leaves, also where it fails; Moves, Laws and
--                    Lifecycle are about the policy store that a command leaves, Release about a
--                    text from its commit to the gateway that serves it
--   Service          crates/authz-gateway/src/main.rs: the state of the small gateway and its handlers
--   Board, Suggest   crates/authz-board/src/lib.rs; crates/authz-suggest/src with the audit file as its
--                    lines over the parameter LineFormat
--   Examples         small instances of the parameters, and the theorems at concrete inputs
--
-- Loops are structural recursion on lists, texts or JSON; trim_start_text of Prelude/Text takes the
-- text's characters as fuel, which is enough because each round removes a character at least, and drain
-- of Store/Writer takes a number of rounds. Counters wrap at 2 ^ 64. Locks and the swap of the bundle are
-- single steps, and one handler runs at a time; the audit writer alone is interleaved with the calls.
-- A latency or a limit is taken to be below 2 ^ 63, where its cast to i64 changes nothing.
-- Hash maps and hash sets are held as lists in the order of insertion. The files of the policy store, of
-- the command line and of the audit, and the database, are taken not to fail on writing: where the source
-- goes on after such a failure (main.rs of authz-gateway and of authz-cli after append_audit, the writer of
-- db.rs), nothing is said of what follows it.
--
-- Not modelled: the readers of arguments, SQL, YAML and TOML, HTTP and LDAP as protocols, logging,
-- sockets and the wiring of routes, whose results are parameters where the program looks at them; the
-- texts of the SQL scripts, of the Cedar schema and of the board's page.
pub mod Prelude
pub mod Core
pub mod Policy
pub mod Json
pub mod Catalog
pub mod Bridge
pub mod Identity
pub mod Proxy
pub mod Store
pub mod Cli
pub mod Service
pub mod Examples
pub mod Board
pub mod Suggest
