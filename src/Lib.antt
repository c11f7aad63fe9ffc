-- ===== src/Lib.antt =====
-- Abraxius Lattice: the parts of the Rust workspace under crates/ that carry its own logic.
--
-- The program keeps a Roblox project on disk and offers it to editors and to tools. Of its crates
-- seven are modelled here, the last two in part. `lattice-editor-core` holds the open documents;
-- `lattice-resource` gives every entity its reference `rbx://…` and every content its hash, and
-- the other crates store and exchange these; `lattice-tools` knows the providers of tools, their
-- schemas and capabilities, and decides which tool a request goes to; `lattice-connections`
-- connects the providers and calls their tools under the catalog and the registry of
-- `lattice-tools`; `lattice-studio-bridge` pairs with the plugin in Roblox Studio, takes its reports and
-- sends it commands; `lattice-studio` knows the sessions of Studio and the connections that they
-- are bound to; `lattice-platform` reads the paths and processes of Studio on every system. The
-- tool fabric uses the hash of `lattice-resource` for its identifiers and for the revisions of
-- schemas and catalogs.
--
-- Base (shared): texts as lists of code points, UTF-8, `str::split`, `u64` in decimal, `BTreeMap`
-- as a list of entries in the order of the keys, and errors as values. A method on `&mut self` that
-- may fail gives its state back beside the error, so that what it wrote before failing is seen.
--
-- Editor (crates/lattice-editor-core/src/lib.rs): `Editor/Types` has the selections, operations,
-- history entries, errors and the `Document`; `Editor/Edits` one round of the loop of
-- `apply_transaction`, `replace_bytes`, `ensure_boundary` and the loops of `undo` and `redo`;
-- `Editor/Document` the methods that change a document, each after its namesake; `Editor/View` the
-- methods that read it; `Editor/Documents` the map of open documents of `Editor`. A session, in
-- `Editor/Document/Session`, calls these methods one after the other. The crate ropey is
-- the record `RopeOps` with its documented behaviour `RopeLaws`; the hasher of blake3 is a parameter
-- too. `Editor/Sample` has a rope that is a list, for the tests.
--
-- Resource (crates/lattice-resource/src/lib.rs): `print` is `Display` of `ResourceRef` and `parse` is
-- its `FromStr`; `from_hex` and `show_hash` are those of `ContentHash`. The crates uuid and blake3
-- are parameters: an identifier's text is read back, is not empty and has no slash; a digest's
-- hexadecimal text is read back and has no colon.
--
-- Tools (crates/lattice-tools/src/lib.rs): `Tools/Types` has the data, with JSON values as
-- `serde_json` has them; `Tools/Ids` the identifiers and references; `Tools/Capability` capability and
-- operation identifiers; `Tools/Schema` the validation, normal form and registration of schemas and
-- the validation of inputs; `Tools/Providers` and `Tools/Catalog` the two registries, with `Tools/Search`;
-- `Tools/Router` the router; `Tools/Builtin` the fabric that is built at start. The hash and
-- `serde_json::to_vec` are parameters, and so is the version that the build fills in.
--
-- Connections (crates/lattice-connections/src/lib.rs): `Connections/Types` has the data and errors;
-- `Connections/Store` the `MemoryResultStore`; `Connections/Broker` the lifecycle of the providers,
-- `register_provider` for `register` and the other methods after their namesakes; `Connections/Call`
-- the method `call`, with `admit_call` for its guards and `deliver` for its end. A method that asks a
-- provider takes what `timeout` gives as an argument, and runs without another one in between; `call`
-- takes the catalog, the slots and the store each as it finds them. The policy, `serde_json::to_vec`,
-- blake3, fresh identifiers and the clock are parameters.
--
-- Bridge (crates/lattice-studio-bridge/src/lib.rs): `Bridge/Types` has the messages and limits, with
-- the platform names of crates/lattice-platform/src/model.rs that they carry; `Bridge/Pairing` the
-- `PairingState`; `Bridge/Session` what the methods of the broker do to one `SessionRecord`;
-- `Bridge/Broker` the methods of `StudioBridgeBroker` and the functions below it; `Bridge/Http` the
-- handlers and their authentication. A `Mutex` makes every method one step; `call` is two, `begin_call`
-- and `end_call`, with the reports of the plugin between them. A `HashMap` is a list of entries in the
-- order in which it is iterated. Fresh identifiers, the clock, blake3, whose hashes have 32 bytes, and
-- the text of an identifier are parameters.
--
-- Studio (crates/lattice-studio/src/lib.rs): `Studio` has the data and the methods of
-- `StudioManager`; `at_session` is the search of the methods that change a session in place.
--
-- Platform (crates/lattice-platform/src/model.rs): `Platform/WinePath` has the paths of Wine guests,
-- `parse_wine_path` for `FromStr` and `print_wine_path` for `Display`.
--
-- Numbers are natural; `u64` is bounded by `u64_max` where the code adds or parses, and times in
-- milliseconds by `i64_max`. The clock gives no time before the epoch. There is fuel in two places:
-- `print_u64` has 20 digits, which are enough for every `u64`, and `evict` as many rounds as the map
-- has entries, each of which removes one. All other loops are recursions on their lists.
--
-- Not modelled: the implementations of serde traits, which call the functions above; the texts of
-- errors, but for those of a provider that a result of a call carries; the clock behind
-- `LatticeId::new`; and the other crates, which are databases, processes, sockets, the bindings to
-- Luau and glue, or wait for their turn (graph, core and model). Of `lattice-platform` all but the
-- paths of Wine guests is left out, and of `lattice-studio` the function `diagnose_mcp_endpoint`,
-- which reads an environment of `lattice-platform`.
pub mod Base
pub mod Editor
pub mod Platform
pub mod Resource
pub mod Studio
pub mod Tools
pub mod Bridge
pub mod Connections
mod Tests
