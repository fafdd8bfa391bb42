-- ===== src/Lib.antt =====
-- The core of the WACP platform, a coordination protocol for autonomous agents: workspaces in
-- which agents work, the envelopes that they exchange, the tasks that a coordinator plans, and
-- the rights, gates and limits by which it controls them.
--
-- Parts and files. The data of wacp/crates/wacp-types/src is in Types: the closed enumerations
-- in Types/Enums, the records in Types/Records. The lifecycles of wacp/crates/wacp-fsm/src are
-- in Fsm: Fsm/Machine has the trait, its errors and the fold over a list of triggers, and
-- Fsm/Workspace, Fsm/Envelope and Fsm/Task have one `transition` function each, with the
-- source's table and guard. The hybrid logical clock of wacp/crates/wacp-clock/src is in Clock:
-- Clock/Timestamp and Clock/Bytes for timestamp.rs, Clock/Hlc for lib.rs. The state of a
-- workspace, wacp/crates/wacp-workspace/src/state.rs, is in Workspace/State, one function for
-- each method. Of the coordinator, wacp/crates/wacp-coordinator/src, the file
-- Coordinator/TaskGraph models task_graph.rs, Coordinator/Scheduling scheduling.rs,
-- Coordinator/Tree tree.rs, Coordinator/Gate gate.rs, Coordinator/PortRights port_rights.rs,
-- Coordinator/Visibility visibility.rs, Coordinator/Ownership ownership.rs, and the modules of
-- Coordinator/Resource the timeouts, budgets and liveness of resource.rs;
-- Coordinator/Tree/Traversal has the traversals and the cascade of failures of tree.rs,
-- Coordinator/Topology topology.rs and Coordinator/Migration migration.rs. Taxonomy models
-- wacp/crates/wacp-taxonomy/src: the records of definition.rs and resolved.rs, Taxonomy/Checks
-- the validation of loader.rs and Taxonomy/Loader its resolution of roles. Permissions models
-- wacp/crates/wacp-permissions/src/lib.rs, and Permissions/Loaded is about an engine made of a
-- loaded taxonomy. Trail/Chain is the hash chain of wacp/crates/wacp-trail/src/chain.rs,
-- Trail/Memory the stores of memory.rs, and Recovery wacp/crates/wacp-recovery/src/lib.rs. Of
-- wacp/crates/wacp-llm/src, Llm/Errors models error.rs, Llm/Retry retry.rs, Llm/RateLimit
-- rate_limit.rs, Llm/Cost cost.rs and Llm/Prices its price tables; Tools/Breaker is the circuit
-- breaker of wacp/crates/wacp-tools/src/resilience.rs. Child modules hold the proofs and are
-- named for what they prove; Examples applies the theorems to concrete inputs and runs the
-- definitions.
--
-- How they interact. A task graph drives the task machine in `transition`; scheduling works on
-- the task graph; the timeouts follow the states of the workspace machine; the permission engine
-- reads the taxonomy that the loader resolves. A topology holds the tree, the visibility, the
-- escalation router and the port rights, and calls their operations in the order of the source.
-- Recovery reads the entries of a trail, whose chain it verifies with the functions of
-- Trail/Chain, and takes the step after the last timestamp from Clock. Each part keeps a state
-- of its own, so a method with `&mut self` is a function that returns the new state and the
-- result of the call, also where the call fails. Calls of a part in any order are a list of a
-- type `Call` (or `Op`), which `run` folds over the state.
--
-- Numbers and collections. A number is a native natural number; fields of 64 and 16 bits are
-- bounded by hypotheses where it matters, a sum on `u64` in the trackers and in `succ` wraps, as
-- in a release build, and a saturating difference is the one that stops at 0. The counters
-- `next_id` of gates and rights, and the `u32` dependency counters, are not bounded: they would
-- take 2^64 (2^32) calls to overflow. A `HashMap` is an association list that is read by its
-- first binding, and a `HashSet` a list without repetition; they iterate in the order of
-- insertion, which the source leaves open, and no theorem depends on it but where it speaks of a
-- list in a fixed order. An identifier is its string. `format!("gate-{}", n)` is the prefix and
-- the decimal numeral. The derived `Debug` names of states and triggers are written out.
--
-- Fuel. The recursion of `cancel_task` over the graph is on fuel, one unit for each level; more
-- fuel than there are tasks that can be cancelled is enough, since each level cancels one. The
-- traversals of the workspace tree are on fuel, too, and give `none` when it runs out: the walk
-- to the root takes one unit for each ancestor, and a parent is registered before its child, so
-- that the child's place among the registered workspaces is enough; `descendants` takes one unit
-- for each workspace that its queue visits, which the order of registration bounds. An operation
-- of the topology passes its fuel on. Every other loop of the source that is modelled runs over
-- a list or counts the segments of a trail.
--
-- Parameters. The `f32` of a budget's warning threshold is a type parameter, and the comparison
-- that uses it a function parameter. A reading of the time source is an argument. SHA-256 is a
-- function parameter on byte lists; that it gives 32 bytes is a hypothesis where it is used. The
-- JSON library is a partial function from an entry to the event that it holds; the printed forms
-- of a hash, of a state and of a duration are function parameters, and what the random number
-- generator draws is an argument.
--
-- Not modelled: the asynchronous parts, which are input and output (the handlers, dispatch and
-- the orchestrator of the coordinator, the actor of a workspace, the concurrency limiter of
-- tools, the transport, the runtime, the development kits and the console), the stores of the
-- trail that are files, and the clients of language models. Locks are not modelled, since every
-- call is one step. `get_mut` of the task graph, of the tree and of the migrations hands out a
-- reference through which a caller may change an entry, which no function of the model does.
pub mod Prelude
pub mod Types
pub mod Fsm
pub mod Clock
pub mod Workspace
pub mod Coordinator
pub mod Permissions
pub mod Taxonomy
pub mod Trail
pub mod Recovery
pub mod Llm
pub mod Tools
pub mod Examples
