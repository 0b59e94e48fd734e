-- ===== src/Lib.antt =====
-- hsmc: hierarchical state machines for Rust, generated by a procedural macro.
--
-- The macro (hsmc-macros/src) parses a chart, lowers it to an intermediate representation, and emits
-- static tables and a machine type. The machine runs in steps: it enters the root, follows defaults,
-- counts timers down, takes events from its queue, and moves between states along paths that the macro
-- has computed. The runtime crate (hsmc/src) holds the timer table, the emit proxy and the journal.
--
-- Files and what they model:
--   Prelude, Prelude/Tests, Prelude/Lists   shared names, Boolean tests, list functions and lemmas
--   Heapless         Deque and Vec of the crate heapless: parameters, with the documented behaviour as laws
--   Input            hsmc-macros/src/parse.rs, the parsed tree
--   Syn              the crate syn: token trees, and its calls as parameters with the documented behaviour
--                    as laws
--   Parse            hsmc-macros/src/parse.rs: parse_body and the entry. Parse/Filling is the body that is
--                    filled; Parse/Pieces is parse_ident_list, parse_trigger and the parts of the arms;
--                    Parse/Print is the grammar as a printer; Ensures, Sound and Accepted hold the proofs
--                    about all streams, Reading, Rounds and RoundTrip those about printed ones
--   Ir               hsmc-macros/src/ir.rs, the intermediate representation
--   Refusal          the errors of the passes below
--   Lower            hsmc-macros/src/ir.rs: Lower/Interning is the interning of actions, events and
--                    durations; Lower/Bodies is build_ir, with its proofs in Bodies/Forest, Keeps,
--                    Grows and Correct, which say that the states are a tree, and in
--                    Bodies/Interned and Means, which say what they stand for; Lower/Resolve is resolve_transitions, with its proofs in
--                    Resolve/Correct, Targets, Refused and Means
--   Validate         hsmc-macros/src/validate.rs: Validate/Graph is validate_default_graph, with its
--                    proofs in Graph/Colors, Chase, Correct and Rank; Validate/Handlers, Correct
--                    and Tree hold the proofs about the other checks
--   Codegen/Walks    hsmc-macros/src/codegen.rs: lca, is_strict_ancestor, compute_one and the walk of
--                    compute_terminate_paths. Walks/Tree says what a state tree is and what its active paths
--                    are; Walks/Reach and Walks/Correct hold the proofs
--   Codegen/Tables   hsmc-macros/src/codegen.rs: compute_transition_paths, compute_terminate_paths and the
--                    merged table of generate. Tables/Slices, Lookup and Terminate hold the proofs
--   Codegen/Dispatch hsmc-macros/src/codegen.rs: compute_event_dispatch. Dispatch/Nearest holds the proof
--   Codegen/Hash     hsmc-macros/src/codegen.rs: compute_chart_hash
--   Codegen/Checks   verification/src/paths.rs and the assertions of hsmc-macros/src/codegen.rs on the
--                    emitted tables. Checks/Correct, Fits and Passes hold the proofs
--   Codegen/Durings  hsmc-macros/src/codegen.rs: active_durings_per_innermost_state. Durings/Along holds the
--                    proof
--   Codegen/Generate hsmc-macros/src/codegen.rs: the constants and lookups of generate. Generate/Groups and
--                    Sound hold the proofs
--   Codegen/Text     hsmc-macros/src/codegen.rs: emit_state_chart_string and render_state. Text/Drawing draws
--                    the parsed tree; Text/Own, Correct, Marks and Accepted hold the proofs
--   Timers           hsmc/src/lib.rs: TimerTable. Timers/Owners: who owns the entries;
--                    Timers/Fires: the entry that pop_expired takes; Timers/Laws: the table as a map
--   Journal          hsmc/src/journal.rs and hsmc/src/error.rs. Journal/Replay: what a journal says of the
--                    active path
--   EventQueue       hsmc/src/lib.rs: EventQueue; EventQueue/Runs is any sequence of calls
--   Machine          hsmc-macros/src/codegen.rs: the machine that generate emits. Machine/Actions is emit
--                    and run_action; Machine/States is enter_state_no_descent and exit_state;
--                    Machine/Transitions is apply_path, transition, follow_defaults, enter_path,
--                    run_handlers, dispatch_trigger and do_terminate; Machine/Step is step and
--                    send; Machine/Dispatch is dispatch; Machine/Current is current_state
--   Machine/Trace    single operations against the journal
--   Machine/Sound    what the machine relies on in its tables, and the invariant of a machine; Sound/Tables
--                    joins the machine to the tables that the macro computes, Sound/Runs is any
--                    sequence of steps and sends, and Sound/Drains is dispatch; Transitions, Handlers,
--                    Events and Steps hold the proofs about the operations
--   Macro            hsmc-macros/src/lib.rs: statechart_impl, the chain of the passes; Macro/Accepted joins
--                    the passes, the tables and the machine
--   Examples         a parsed tree and a chart of four states, and the theorems applied to it
--
-- A machine is a record of the fields of the generated struct; an operation takes it and returns it. The
-- journal field is the sink with the journal feature on. User actions are programs that emit events and
-- look at the replies. The generated async functions differ from the sync ones by .await alone, so one
-- definition stands for both. An unchecked access to a table returns none when it is out of bounds.
--
-- Fuel: the walks of the macro take as much fuel as there are states, which is enough since a parent has
-- a smaller id. follow_defaults takes one more round than there are states: the graph of the defaults
-- has no cycle, which the rank of the record Sound expresses.
--
-- Casts to u16 and u64 are written out; a duration is its count of nanoseconds.
--
-- The lowering recurses over the parsed tree. The walk of validate_default_graph takes one round more
-- than there are states, since each round but the last paints one. The loop of dispatch may run for
-- ever, since actions emit events; its fuel bounds the rounds that are looked at. Ids are u16 and depths
-- are u8: the theorems about the lowering bound the number of states and the nesting, so that no cast
-- wraps.
--
-- The loops of the parser take one round more than there are tokens, since every round reads one. What
-- the parser leaves inside brackets is refused where they are dropped; syn reports it later, but always.
-- An invisible group of a macro is taken for its tokens. The drawing of the states takes fuel as
-- deep as they are nested.
--
-- Parameters: the calls of syn, the bytes of a text, which the hash reads, and the value of a user's duration expression.
--
-- Not modelled: the printing of Rust text, the run loops of tokio and embassy,
-- and the mirrors of the timer table and the queue under verification/src of the repository. Spans are
-- left out. A type or an expression of the user is the text of its tokens.
pub mod Prelude
pub mod Heapless
pub mod Input
pub mod Syn
pub mod Parse
pub mod Ir
pub mod Refusal
pub mod Lower
pub mod Validate
pub mod Codegen
pub mod Timers
pub mod Journal
pub mod EventQueue
pub mod Machine
pub mod Macro
pub mod Examples
