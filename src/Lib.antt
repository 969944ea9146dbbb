-- ===== src/Lib.antt =====
-- A model of the core logic of Mercury Tools, and what is proved of it.
--
-- Mercury Tools prepares, confirms and dispatches ERP mutations for an accounting assistant. The
-- parts modelled here:
--
-- * Hosted.Transitions is src/mercury_tools/execution/hosted/transitions.py, the state contract of
--   a hosted operation (the parent) and of the items below it. A state read from a text that is no
--   state makes every test false, as in the code. `parent_step`, `children_compatible` and
--   `item_step` are the bodies of the three public tests once the texts are states;
--   Hosted.Transitions.Progress reads the tests as a transition system.
--
-- * Hosted.Operations is the part of src/mercury_tools/execution/hosted/models.py on operations:
--   `OperationItem`, `OperationEvent` and `HostedOperation` (`operation_valid` is `validate_operation` with
--   the validators of what is in it), `transition` (`move_operation`) and `transition_item`
--   (`move_operation_item`). Hosted.Previews is `DocumentPreview` with its states, times and identifiers,
--   and `transition` (`move_preview`). Hosted.Confirmation has `from_preview` and the two comparisons of
--   execution/hosted/store.py. Hosted.Store is `InMemoryHostedPreviewStore` of
--   src/mercury_tools/execution/hosted/store.py, each method under its name; `admit_`, `confirm_` and `next_`
--   are a method up to its assignments. The dictionaries are functions from keys. `World` is what a call
--   reads outside the store: the registry, the authority resolver and two readings of the clock; `Checks`
--   is `require_safe_public_identifier` and whether `sanitize_public_text` accepts a provider's result
--   identifier. Every validation projects that identifier again, which can change its text, so that of the
--   text there is only that it is there (`PublicText`); a text that was accepted is taken to be accepted
--   again. A UUID is its number and a time is microseconds in UTC.
--   `Call` is one call of a method that writes, and `serve` the store after a list of calls, which the lock
--   makes of the calls of several threads. Hosted.Operations.Log reads an event log back (`replay`).
--   Not modelled: the content of a document with its hashes, totals and sealed payload, which no method
--   changes and a preview given to the store is taken to be valid in; the opening of payloads, an
--   argument of `load_confirmable`; `SupabaseHostedPreviewStore`, which calls stored procedures.
--
-- * Execution.Policy is src/mercury_tools/execution/policy.py: the risk of one mutating action, its
--   mutation class and its approval level. Execution.Policy.Effects reads a declared side effect as a
--   sensitive one; a text is the list of its code points. Two tests of execution/models.py on the
--   decisions, `_valid_approval_binding` and `_risk_covers_floor`, are there too.
--
-- * Execution.Requests is src/mercury_tools/execution/store.py with the states and the state rules of
--   src/mercury_tools/execution/models.py: the local store of prepared requests. `Rows` is the SQLite
--   table, in its order; `insert_row` and `update_row` keep its primary key and its partial unique
--   index on the payload hash. A method is a `Tx`, a block of `_immediate_transaction`: what it wrote is
--   kept if it returns and rolled back if it raises. `Runtime` is what a call reads outside the table,
--   the clock (microseconds, read once by a transaction) and `_sanitize_public_data`; `Binding` is the
--   repository and `render_action_path`. `Call` is one call of a public method with its arguments,
--   `apply_call` the table after it and `serve` the table after a list of calls. The store serialises
--   calls by a file lock and `BEGIN IMMEDIATE`, so the calls of several processes are one list.
--   Not modelled: the SQLite file, its schema, migration, path and mode checks; the JSON of a row,
--   which is kept as the record; the validation of the fields of a request that no method writes,
--   which a request given to `create_preview` is taken to have passed; `sanitized_summary`. The inputs
--   and the response summary of a request are the text of their JSON.
--
-- * Qualification.RunStore is src/mercury_tools/qualification/run_store.py: the state of one sandbox
--   qualification run. `RunStore` is the object (`_record`, `_runtime_publication_granted`,
--   `_runtime_binding_failed`) with the record in its state file; a method is an `Op`, which keeps what
--   it had set when it raises. `World` is what one call finds outside the object: its clock, the
--   results of the directory checks before the write, at it and after it, and how the write ends
--   (`Write`: the old file stays, the new file is there but a check raises, or it returns). Store has
--   `_replace` and `record_fixtures`, Cleanup the cleanup, quarantine and completion, and Calls
--   `__init__` (`open_store`), whose argument is what `_read_state` returns. Not modelled: the JSON of
--   the file and the directory itself; an error of the file system is one error, `state_path_unsafe`.
--
-- * Qualification.Selection is src/mercury_tools/qualification/selection.py: the choice of the evidence
--   that is shown for one action. A record has the fields that the choice reads; times are
--   microseconds in UTC. Selection has the code, Laws the outcome and Latest the selected record.
--
-- * Qualification.Planner is `stable_topological_sort` of src/mercury_tools/qualification/planner.py. A
--   set is a list without repeats, a dictionary a function, and the heap a list of which the least is
--   taken. Sort has the code, Graphs and Edges the graph, Loop and Turn the invariant of `while ready`, and
--   Order what the sort returns.
--
-- * Reconciliation is the part of src/mercury_tools/reconciliation/matcher.py on duplicates and
--   candidates: `_partition_duplicates`, `_candidate_for`, `_score_candidates` and `_candidate_costs`, which gives the flow of least cost one integer for each pair.
--   Duplicates, Candidates and Costs have the code, Radix the numbers with weights, Order what the costs
--   compare, and Partition what the partition keeps. An
--   amount is its cents, a date the number of its day, and a text that is compared is ASCII. Not modelled:
--   the validation of transactions, the flow itself and the evidence.
--
-- * Journals is src/mercury_tools/journals/models.py: the preparation of a general journal. An amount is
--   what `Decimal(str(value))` reads, a sign, a coefficient and an exponent (`Amount`), and `money` its
--   cents; `add_money` is `+` in the decimal context of 28 digits. A text is the list of its code
--   points, in the form `str(value or "")`; white space, case folding and lower case of a code point
--   are Python's Unicode tables (`Unicode`). The date is what `date.fromisoformat` reads. Accounts has
--   the search for an account, and Resolution what it means that a line names one. Not modelled:
--   `input_hash`, the printing of amounts, the details of errors.
--
-- Everything is structural recursion. Two definitions take fuel: `take_all` of Qualification.Planner, the
-- loop that takes each node once, with as much fuel as there are nodes, which is enough for it to end; and
-- `significant` of Journals.Amounts, which looks for the unit that a sum is rounded to: 64 units are enough
-- for sums below 10^92 cents, and sums below 10^28 cents are not rounded. Prelude has what the parts share: the
-- Boolean tests on numbers, lists over the native numbers, and results.
--
-- Not modelled: the services the program calls (ERP providers, AWS, the database, key ring and file
-- system), the adapters to them (MCP servers, drivers, importers, authentication, command line), and,
-- so far, the rest of qualification and of reconciliation, retrieval, flows and the audit log.
pub mod Prelude
pub mod Hosted
pub mod Execution
pub mod Qualification
pub mod Journals
pub mod Reconciliation
