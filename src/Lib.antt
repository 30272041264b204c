-- ===== src/Lib.antt =====
-- luchta runs the tasks of a monorepo: a configuration names tasks and what they depend on, the task
-- graph is built from it and from the packages, the walker hands out the tasks in dependency order,
-- and the cache decides whether a task has to run.
--
-- Types models crates/luchta-types/src/lib.rs and config.rs: names, task ids, the references of
-- `dependsOn` with their parser and printer, task definitions and environment values. Text holds the
-- string operations of Rust's standard library that these use.
--
-- Petgraph is the interface of the crate petgraph, which is not part of the repository: the operations
-- are parameters, their documented behaviour is the record IsPetgraph, and Petgraph/Concrete has lists
-- of nodes and edges that satisfy it.
--
-- Petgraph/Indexed is a graph with a table of indices, as both graphs of the program have one.
--
-- PackageGraph models crates/luchta-workspace/src/package_graph.rs, where reading and parsing a
-- package.json is the parameter `read`: Indexed and Edges say what `build` establishes, Depends says by
-- names and manifests which package depends on which, Neighbors and Closure model the direct and
-- transitive lookups. The searches for transitive packages, here and in task_graph.rs, are
-- PackageGraph/Search: `explore` runs on fuel, the number of packages, and Search/Work shows that each
-- element is put on the list at most once, so that the fuel is enough; Search/Reach shows what is found.
--
-- TaskGraph models the graph of crates/luchta-engine/src/task_graph.rs: Upstream the packages upstream
-- of a task, Edges the construction from a resolved pipeline, Checks the validation of the tasks. The
-- error of these operations is the task that the cycle error names. Plan puts the package graph, the
-- task graph and the walker together.
--
-- Pipeline models the tasks of every package before they become nodes
-- (ResolvedPipeline of task_graph.rs): Pipeline how they are built, Pipeline/Changes the decisions of
-- the workers, the dependencies that workers bring and prunes, and Pipeline/Validation the check for
-- dead references. The answers of the workers are a list of outcomes.
--
-- Walker models crates/luchta-engine/src/walker.rs. The locks, the oneshot channels and the join set
-- become explicit state: a run is `run accepts joined s`, where `accepts` says whether the receiver
-- still takes a message, `joined` is the sequence of results in the order in which they come, and `s`
-- is what `WalkerState::from_graph` builds. A result is the boolean that the task's channel delivers,
-- false when the sender is dropped. The loop that skips dependents runs on fuel, the number of nodes,
-- and Walker/Skips shows that it always empties its queue within it.
--
-- Cache models crates/luchta-cache/src/record.rs, reason.rs and decide.rs: the record of a run, the
-- decision with its reason, and the difference of two lists of file entries. The resolver of files is
-- the trait's functions as a record, and the digest of the inputs is an argument. The maps of the
-- source are association lists that hold each key once.
--
-- InputExpansion models crates/luchta-engine/src/input_expansion.rs, with the input patterns of
-- crates/luchta-types/src/lib.rs in Types/Inputs and the paths of Rust's standard library in
-- InputExpansion/Paths. Glob models crates/luchta-glob/src/lib.rs; the crate globset is the record
-- Globset. Tokenize models crates/luchta-worker/src/tokenize.rs, MemoryPressure the monitor of
-- crates/luchta-cli/src/memory_pressure/mod.rs, Gc the collection of old files of
-- crates/luchta-cache/src/shared/gc.rs, where a directory is a list of the files whose names are UTF-8.
-- Cache/Diff/Contents, Gc/Sweep, Pipeline/Validation/Live and TaskGraph/Checks/CacheFiles/Sound state
-- what the tests of their components are to say without those tests.
--
-- Integers are natural numbers with the wrap-around or the saturation of their width written out
-- where the source computes with them. Not modelled: the file system, the worker processes and
-- their protocol, the transfer of the shared cache, the command line and the watcher.
pub mod Prelude
pub mod Text
pub mod Tokenize
pub mod Types
pub mod Petgraph
pub mod TaskGraph
pub mod Walker
pub mod Gc
pub mod Glob
pub mod InputExpansion
pub mod MemoryPressure
pub mod PackageGraph
pub mod Plan
pub mod Pipeline
pub mod Cache
