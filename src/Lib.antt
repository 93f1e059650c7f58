-- ===== src/Lib.antt =====
-- TrueForm builds parametric CAD models: a part is a list of features, which are compiled into a
-- dependency graph, put into an order and built one after the other by a geometry backend. This
-- library models the parts of that program that decide what is built, in which order and when.
--
-- The program's parts, and the files that model them (paths from the repository's root):
--   src/ir.ts, src/ir_contract.ts   Ir/*: the types of an intent document. A union is a data type, an
--       object type a record, an optional field an Option.
--   src/params.ts   Params/Expressions (evalExpr and what it calls), Params/Context
--       (buildParamContext, normalizeScalar).
--   src/graph.ts   Graph/References (the text of named selectors), Graph/Features (indexes and what a
--       feature refers to), Graph/Inference and Graph/Selecting (inferred dependencies),
--       Graph/Dependencies (buildDependencyGraph), Graph/Topo (topoSortDeterministic, insertSorted).
--   src/executor.ts   Execute/Merge (mergeResults, reconstructStateFromSteps), Execute/Closure
--       (downstreamClosure), Execute/Plan (createIncrementalPlan), Execute/Build (buildPart).
--   src/hash.ts   Hash (stableStringify, hashValue).
--   src/part_preparation.ts, src/compiler.ts   Prepare (prepareNormalizedPart, hashFeature,
--       compileNormalizedPart); Compile (preparePart, compilePart, compilePartWithHashes),
--       Compile/Documents (compileDocument).
--   src/build_cache.ts   Compile/Keys.
--   src/feature_staging.ts   Prepare/Stages.
--   src/ir_normalize.ts   Normalize/Scalars, Normalize/Paths and Normalize/Sketches (scalars, paths,
--       profiles, entities and constraints), Normalize/Bodies, Normalize/Faces and Normalize/Details
--       (the cases of normalizeFeature, by the kind of the feature, with its selectors),
--       Normalize/Features (normalizeFeature), Normalize/Parts (normalizePart and the policy on staged
--       features). Normalize/Selectors is normalizeSelector of src/selectors.ts.
--   src/resolution_context.ts   Select/Context.
--   src/selection_slots.ts   Select/Slots, with the slots that src/selectors.ts parses.
--   src/selection_semantics.ts   Select/Semantics.
--   src/selection_contract.ts   Select/Contract.
--   src/selectors.ts   Select/Names (references as text), Select/Rebind, Select/BooleanEdges and
--       Select/Scores (the score of a candidate), Select/Picking (resolveStableSelectionRebind),
--       Select/Named (resolveNamedSet), Select/Matching (predicates and metadata), Select/Resolve
--       (ranking, resolveSelectorSet, resolveSelector).
--   src/job_queue.ts   JobQueue/Jobs (records and marks), JobQueue/Pump (pump, runJob,
--       finishJobIfNeeded), JobQueue/Retention (pruneTerminalJobs), JobQueue/Events (the methods and
--       the callbacks).
--   src/backend.ts   Kernel: the types of a backend's results.
--   src/errors.ts   Base/Outcome: CompileError.
-- The proofs stand in further modules: Params/Fuel (termination), Params/Pure to Params/Solution (the
-- context), Graph/Known to Graph/Join (the edges), the children of Graph/Topo, of Execute/Closure, of
-- Execute/Plan and of Execute/Build, JobQueue/Handles to JobQueue/Final and JobQueue/Kept, the
-- children of Hash, Prepare/Staged to Prepare/Errors, Select/Surely to Select/Distinct, the children of
-- Normalize/Numeric with Normalize/Corresponding, Normalize/Staging and Normalize/Repeats, and
-- Compile/Orders. Examples are in Tests.
-- A graph comes from Graph/Dependencies, is ordered by Graph/Topo, and the order and the graph are
-- what Execute/Plan and Execute/Build work on: Prepare puts them together, with the hashes of Hash, and
-- Compile puts the normalization of a part before it. A
-- feature's selectors are resolved by Select in the kernel's result of Execute. The job queue runs
-- whole builds and stands alone.
--
-- How the model corresponds to the code:
--   * A string is the list of its 16-bit code units. A Map or a Set with string keys is the list of
--     its entries in the order of their insertion (Base/JsMap). A record of own properties is one too.
--   * Numbers of the source that are indexes, counts and times are natural numbers, with the
--     subtraction that stops at 0 where the source writes Math.max(0, ...); a degree of the graph is
--     an integer. Other numbers are floats: their type and operations are the parameter Numbers.
--   * A function that throws a CompileError returns an Outcome; a constructor of CompileError is an
--     error code with the values that its message shows. Params adds a third result, out_of_fuel,
--     and Normalize and Compile pass it on.
--   * buildPart takes the backend's execute and its capabilities as parameters; the backend is a
--     function of the feature and of the state so far. Its order, graph,
--     hashes and features are arguments, as PreparedPart holds them.
--   * A JavaScript value is a Value: the parameter fields_of gives the own properties of a feature,
--     number_text is JSON.stringify of a number, and collate is localeCompare. A hash is undefined for
--     `undefined`, whose text has no length. A sort whose comparison is consistent is an insertion sort.
--   * Job objects are shared by the queue, the map and callbacks, so they stand in a heap, and a
--     handle is a place there. A method or callback is one step, with one reading of the clock; tasks
--     and timers call back at any time. Options of the queue are natural numbers. An id is the pair
--     of numbers that its text is made of.
--
-- Loops without a structural bound run on fuel: topoSortDeterministic for as many rounds as there are
-- ids, downstreamClosure for the changed ids and the edges, bisect for the length of the queue,
-- evalParam for the parameters and one more.
--
-- Not modelled: the connectors of a build result and buildPartAsync; the details objects of errors and
-- the text of normalizeError and of the issues of a selection contract; the validation of parts and
-- documents and the solver of sketch constraints, which are arguments of normalizePart (Normalizer);
-- warnings that are printed; assemblies, which compute in floating point; the backends, the
-- DSL, exporters, the viewer and the service client.
pub mod Base
pub mod Kernel
pub mod Ir
pub mod Params
pub mod Graph
pub mod Execute
pub mod Hash
pub mod Prepare
pub mod Select
pub mod Normalize
pub mod Compile
pub mod JobQueue
