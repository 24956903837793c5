-- ===== src/Lib.antt =====
-- The verification library of the repository's pure core: routing, dependency ordering, the
-- statechart engine, guards, scheduling and configuration.
--
-- Prelude holds what the parts share: Boolean tests on numbers, lists measured with native numbers,
-- a result type, texts, comparison functions and insertion sort, finite sets and maps as lists, and
-- runs that may be out of fuel.
--
-- Routing is nivasa-routing/src/lib.rs. A path is normalised and split into segments
-- (Routing.Path); a pattern is parsed from segments, printed, and ordered by specificity
-- (Routing.Pattern); a pattern is matched against a path with backtracking over optional parameters
-- (Routing.Capture). Both registries keep their table sorted by specificity together with an index
-- of its positions by first literal segment (Routing.Index): RouteRegistry maps paths to values
-- (Routing.Registry), RouteDispatchRegistry also looks at the method (Routing.Method) and at the
-- version, which comes from a header, a media type or the path (Routing.Version,
-- Routing.Controller). A look-up asks the index for candidates, keeps those that match, and prefers
-- the requested version (Routing.Dispatch.Selection); the selection answers with a route, with the
-- allowed methods, or with nothing. Routing.Dispatch.Access has the remaining accessors. Names
-- follow the source; where two types of the source have a method of one name, the method of the
-- selection is called selected_entry, selected_match, selected_value and dispatch_selection, and
-- the path of a pattern is pattern_path.
--
-- Core.Graph is nivasa-core/src/di/graph.rs: the dependency graph of providers and its depth-first
-- topological walk, with the error for a cycle. Core.Modules is what module metadata, dynamic
-- modules and the module registry (nivasa-core/src/module/mod.rs, dynamic.rs, registry.rs) do to
-- register a module and to find the modules it consumes providers from and the types that it
-- exports and sees. Core.Modules.Imports is the registry's order of initialisation; it is shown to
-- do what the dependency graph's walk does on the graph of the imports.
--
-- Statechart.Engine is nivasa-statechart/src/engine.rs: the engine that alone changes the state of
-- a statechart, its tracer and its bounded history, in debug and release builds.
-- Statechart.Document is the parsed document and its events (types.rs and the queries of
-- parser.rs); Statechart.Validator is validator.rs, with the search for reachable states and one
-- function for each check. Which characters are alphanumeric, and the text of an event for {:?},
-- are std's and a parameter, the record Std.
--
-- Common.Request is the request context of nivasa-common/src/lib.rs. Guards is
-- nivasa-guards/src/lib.rs: what a guard sees (Guards.Context, which holds a request context), the
-- throttler's storage and guard (Guards.Throttle), the guard for bearer tokens (Guards.Auth) and
-- for roles (Guards.Roles). Values of serde_json are a parameter with accessors, the record Json.
-- Times and durations are numbers of nanoseconds, and the time of a call is an argument.
--
-- Scheduling is nivasa-scheduling/src/lib.rs: patterns, jobs and their registration;
-- Scheduling.Tick is tick_at, which fires the due jobs in rounds. The cron library and the calendar
-- are a parameter, the record Clock; the identifier that the source draws at random is an argument;
-- a handler changes a world of its own and does not call the scheduler.
--
-- Config is nivasa-config/src/lib.rs: options and look-ups, the lines of .env files (Config.Env),
-- expansion of references over the bytes of a value (Config.Expand, whose depth counts down from
-- nine where the source counts up to eight), loading with files and the process's variables
-- (Config.Load), schemas (Config.Schema) and the dynamic module that checks them
-- (Config.Bootstrap). Reading a file, the process's variables and parsing by FromStr are
-- parameters.
--
-- How the code is modelled. A text is the list of its code points, and the white space of trim
-- is Unicode's. A HashMap is an association list in an arbitrary order, which stands for the
-- arbitrary order of its iteration; a HashSet is a list. The index of the source is a HashMap
-- too, and is only asked for keys. A method that changes self returns the new value, and on an
-- error the source has changed nothing. std's stable sort_by is insertion sort. A TypeId is a
-- number. Indices and lengths are natural numbers: the source's usize values are lengths of
-- vectors in memory. The depth-first walk runs on fuel, one unit more than there are nodes;
-- resolve_order_total shows that this is enough for every graph. So do the walk over exported
-- surfaces, with exported_surface_for_total, the order of initialisation, with
-- import_resolve_order_total for registries as registration makes them, the validator's search,
-- with compute_reachable_lem, and tick_at, with tick_at_total for jobs with positive intervals.
-- All other loops are structural. The code that an SCXML document generates is a parameter, the
-- record StatechartSpec, of which the theorems assume nothing. A tracer is the list of the calls
-- it has had.
--
-- Not modelled. The crates around this core are asynchronous I/O, procedural macros, or glue over
-- libraries (hyper, serde, async_graphql); the rest of nivasa-core (the container, the
-- orchestrator) and the SCXML parser have logic of their own that this library does not cover.
pub mod Prelude
pub mod Common
pub mod Routing
pub mod Core
pub mod Statechart
pub mod Guards
pub mod Scheduling
pub mod Config
pub mod Examples
