-- ===== src/Lib.antt =====
-- skuld, a test harness for Rust: label filters, the coordination of serial tests across
-- processes, fixtures, and the tools beside the harness.
--
-- How the parts interact. A test brings labels and a serial filter (src/label.rs); what it does not
-- say itself comes from its module and its fixtures (src/fixture.rs). Before its body runs, it goes
-- through rounds of a transaction on a database that all test processes share (src/coordination.rs):
-- stale rows are deleted, `can_start` compares filters and labels with those of the running tests,
-- and the test is registered or waits. The database file is published, migrated and watched for being
-- moved; what fails while a test unwinds is recorded, and fails the run. cargo-skuld computes the same conflicts ahead of a run and
-- writes them as nextest groups. xtask checks the versions of a release.
--
-- Which file models which part. Texts are lists of bytes (Prelude/Texts).
--   Label/Name          src/label.rs: `Label::__new` and `validate_label_name`; a panic is an error.
--   Label/Expr          src/label.rs: `LabelExpr`, `collect_terminals`, `fmt_expr`, `format_expr`.
--   Label/Grammar       src/label.pest, as the recursive descent it describes.
--   Label/Build         src/label.rs: `build_expr`, `parse_raw_label_expr`.
--   Label/Filter        src/label.rs: `canonicalize`, `sort_children`, `to_sql_expr`, `LabelFilter` with
--                       its operators, `LabelSelection`, `unknown_labels_message`.
--   Label/Filter/Meaning, Label/Print/*
--                       what filters match, and that what is displayed is read back.
--   Coordination/Storage, Database, Transaction
--                       src/coordination.rs: `to_storage`; the tables, `register`, the guard's DELETE,
--                       `clean_stale_entries`; `can_start` and one round of `coordinate` (`attempt`).
--   Coordination/Waiting
--                       src/coordination.rs: the loop of `coordinate`, with its sleeps, over the rounds
--                       that it makes.
--   Coordination/Conflict, Rows, Exclusion, Steps, Stale, Stored
--                       when tests conflict, stated of filters and labels alone, and the proofs.
--   Coordination/Publish
--                       src/coordination/publish.rs: `ensure_published` and what it calls; in Race, the
--                       calls of several publishers one after the other in any order.
--   Coordination/DbDir  src/coordination/db_dir.rs on Linux: `resolve` and what it calls but
--                       `create_dir_all_open`.
--   Coordination/Rendezvous
--                       src/coordination/rendezvous.rs: the calls of the participants as steps.
--   Coordination/Moved  src/coordination/moved_db.rs on Unix: `DbIdentity`.
--   Coordination/Migration
--                       src/coordination.rs: `migrate_schema`, `scrub_serial_filters_v1`.
--   Coordination/Retry, Cleanup
--                       src/coordination.rs: `retry_busy`, `TestRegistration::drop`;
--                       src/coordination/violations.rs; src/runner.rs: `fail_on_violations`.
--   Fixture/Registry    src/fixture.rs: the checks of the registry, `merge_serial_filters`.
--   Fixture/Walk        src/fixture.rs: `walk_fixture_deps` and what is collected on it.
--   Fixture/Cycles      src/fixture.rs: `detect_cycle`.
--   Fixture/Store       src/fixture.rs: `fixture_get` and the stores that it fills; in Store/Trial,
--                       `fixture`, `warm_up`, `TestScope`, `cleanup_process_fixtures`, and the order in
--                       which the code that macros/src/lib.rs generates makes and drops its locals.
--   Fixture/Labels, Resolve
--                       src/label.rs: `push_unique`, `own_labels`, `resolve_labels`; in Labels/Own, which
--                       labels are the test's own, stated of module paths.
--   Fixture/Builtin/*   src/fixtures/env.rs, src/fixtures/cwd.rs: the guards;
--                       src/fixtures/temp_dir.rs: `file_name_safe`.
--   Nextest/Graph, Emit cargo-skuld/src/graph.rs: `conflicts`; cargo-skuld/src/emit.rs: the filters.
--   Nextest/Groups      cargo-skuld/src/graph.rs: the components in `build_groups`.
--   Xtask/Version       xtask/src/version.rs: `workspace_version`, `validate_cargo_against_nearest`.
--   Runner/Names        src/runner.rs: `effective_trial_name`, `check_duplicate_trial_names`;
--                       src/label.rs: `check_label_registry`.
--   Runner/Selection    src/runner.rs: `collect_inventory_tests`, `collect_dynamic_tests`.
--   Capture             src/capture.rs on Unix: `FdCapture` on the table of descriptors.
--   Macros/Tokens, Serial, Args
--                       macros/src/lib.rs: `parse_serial_expr`, `TestArgs` and `FixtureArgs` with their
--                       `Parse`, over trees of tokens.
--   Macros/Outer        macros/src/lib.rs: how `expand_test_def` absorbs the attributes outside.
--   Examples/*          runs at concrete inputs.
--
-- Parameters. The boolean_expression crate is the record `BooleanExpression`: its operations, that
-- `evaluate_with` evaluates, and that a function read back from a diagram has the truth values and
-- only the names of the expression it was made from. What `kill(pid, 0)` says of a process is a
-- function, and so is `Display` of semver's `Version`. What cargo reports of the workspace is an
-- argument. SQLite's statements are functions on the two
-- tables, and the condition that `to_sql_expr` writes is a tree, whose text `render` gives; BEGIN EXCLUSIVE makes a round one step.
--
-- A debug build is a flag where the code has debug assertions. Whether `panic_if_moved` panics in a
-- round of `coordinate` is a part of the round. Which keys and values `set_var` takes is two functions.
-- A version's numbers are those of u64, in a release build.
--
-- The calls of the operating system that may fail are arguments too: the errno with which a file system
-- refuses a call, the descriptors that are given out, and whether a call fails. So are the outcomes of
-- the calls that `retry_busy` repeats, `decompose_canonical` of the crate unicode_normalization, and
-- the union-find of petgraph, with the laws that a union joins two sets and nothing else. What a disk
-- answers of a path is the record `Disk`; names are texts in UTF-8. What syn takes as an identifier, and the paths that it parses, are the record `Syn`.
--
-- Fuel. The descent spends one unit for each nesting of `!` and parentheses, each of which takes a
-- byte of the text; `parse_input` gives one unit more than the text has bytes. A displayed filter is
-- read with that fuel. The walk over the fixtures spends one unit for each step into a dependency, and
-- has one more than the registry has fixtures; so has the search for cycles. A request for a fixture
-- spends one unit for each dependency inside another; some bound is enough for all requests where the
-- registry has no cycle.
--
-- The macros' parsers spend one unit for each token, of which there are as many as they are given.
--
-- Loops that wait or retry, as `coordinate`, `retry_busy` and the creation of a publish temp do, run over
-- the list of what they meet.
--
-- Not modelled: a panic in the drop of a value that a handle owns (that of the values in the stores is
-- modelled); the requests that a fixture's function makes beside its dependencies; the creation of the
-- database's directory, and the lock under which it is opened; the types of the values that fixtures
-- hold, and threads that request one process fixture at a time; the bytes that a capture drains, and
-- captures on Windows; the threads of the runner; the names of the groups that cargo-skuld joins tests to
-- and the TOML it writes; the search of the git history for tags; the syntax trees that the macros take
-- apart and write; and what is only input and output.
pub mod Prelude
pub mod Label
pub mod Coordination
pub mod Fixture
pub mod Nextest
pub mod Xtask
pub mod Runner
pub mod Capture
pub mod Macros
pub mod Examples
