-- ===== src/Lib.antt =====
-- A verification library for Soul-Llink: the memory policy with its lifecycle service, the persona
-- mode transitions, the injection of memory into prompts, the current session and what may be
-- recalled, of its Python packages.
--
-- The program gives an agent a governed long-term memory (packages/pcltm) and a persona
-- (packages/persona_engine). Seven parts of it decide what an agent may do and what it is told, and
-- are modelled here:
--
-- * The memory policy kernel decides on writes, reads, injections and lifecycle commands. It is
--   pure: the services call it with snapshots from the store.
--     Memory/Contracts   packages/pcltm/memory_contracts.py, its enumerations and frozen records;
--                        check_authority_ref, check_authority_snapshot, check_receipt and
--                        check_transition_command are `__post_init__`
--     Memory/Policy      packages/pcltm/memory_policy.py, function by function
--     Memory/Policy/Access, Write, Lifecycle   the proofs
-- * The lifecycle service retires and expires governed claims in the SQLite tables of the ledger,
--   and enqueues the jobs that rebuild the projections.
--     Memory/Ledger             packages/pcltm/memory_schema.py and the outbox table of
--                               packages/pcltm/ledger_schema.py: the tables as lists of rows, and
--                               each statement of the service with what its triggers and
--                               constraints refuse
--     Memory/Outbox             packages/pcltm/projection_outbox.py
--     Memory/Lifecycle          packages/pcltm/memory_transition_service.py: the request, the
--                               queries and the small steps
--     Memory/Lifecycle/Service  the same file: `_lifecycle` as a transaction, `retire`, `expire`
--     Memory/Ledger/Facts, Memory/Outbox/Jobs, Memory/Lifecycle/Steps, Commit, Outcomes,
--     Invariant, Replay, Safety, Liveness, Success   the proofs
-- * The persona mode machine takes the mode that a classifier nominates to the active mode. The
--   legacy manager is authoritative; the manager v2 runs a table of rules beside it, gives it some
--   low-risk turns when bounded activation is on, and records comparisons in the comparator.
--   All its files are under packages/persona_engine/persona_orchestrator.
--     Persona/Types        types.py, the decisions
--     Persona/Transition   transition_manager.py; each run of early returns of `transition` is a
--                          function, and `decide_turn` tries them in the order of the source
--     Persona/Table        transition_policy.py: conditions, rules, the table, and
--                          `apply_legacy_conditions` with one function for each rule it refines
--     Persona/Table/Rules  `build_legacy_transition_table`, rule by rule
--     Persona/Shadow       transition_shadow.py, the comparator
--     Persona/Manager      transition_manager_v2.py; `manage` is its `transition`, with the
--                          authority source and the next state of the manager as further results
--     Persona/Evidence     rule_schema.py and the classifiers of decision_tables.py
--     Persona/Nomination   `nominate_mode` of decision_tables.py, which no package calls yet: the
--                          proofs take it on the classes of one collection of evidence
--     Persona/Transition/Flags, Gate, Holds, Persona/Table/Best, Legacy, Persona/Shadow/Counts,
--     Persona/Manager/Authority, Recording, Session, Persona/Evidence/Counting,
--     Persona/Nomination/Protected   the proofs
-- * The injection rules choose what memory enters a prompt: the filter applies hard rules, the
--   arbitrator drops duplicates, the budget manager picks candidates layer by layer, and the packet
--   gives up candidates until its rendered text fits.
--     Injection/Candidate  packages/pcltm/injection/candidate.py
--     Injection/Conflict   packages/pcltm/injection/conflict_filter.py
--     Injection/Budget     packages/pcltm/injection/budget_manager.py; its loops are `each` over a
--                          step, with the local variables of the source as the record Selection
--     Injection/Packet     packages/pcltm/injection/context_packet.py
--     Injection/Arbitrator packages/pcltm/injection/arbitrator.py
--     Injection/Conflict/Admission, Injection/Budget/Rounds, Limits, Injection/Packet/Trimming,
--     Sections, Injection/Arbitrator/Dedup, Packets   the proofs
-- * The semantic memory keeps facts with a time of validity; a new fact closes the conflicting ones
--   that it outranks. The files are under packages/pcltm/memory.
--     Semantic/Dates     temporal_fact.py, the texts of dates
--     Semantic/Fact      temporal_fact.py; make_fact is `__post_init__`
--     Semantic/Store     semantic_store.py, the table as the list of the facts in its rows
--     Semantic/Resolver  conflict_resolver.py; write_resolution and supersede_conflicts are parts
--                        of `resolve`, which gives its answer or exception and the next store
--     Semantic/Fact/Validity, RoundTrip, Semantic/Store/Lookup, Semantic/Resolver/History, Closing
--     the proofs
-- * The session keeps a long conversation together: the dialogue state follows the task from turn
--   to turn, the segmenter cuts the turns, and the chain sums the segments up. The files are under
--   packages/pcltm/state and packages/pcltm/session.
--     Session/Turn           update_active_dialogue.py, the turns; the text helpers that the files
--                            share, `_clean_text` above all
--     Session/Segments       segmenter.py
--     Session/Dialogue       active_dialogue_state.py; make_state is `__post_init__`
--     Session/Update         update_active_dialogue.py
--     Session/SegmentRecord, Summary   session_summary_chain.py, the summary of one segment
--     Session/Chain          the same file: the chain and its indexes
--     Session/Turn/Lines, Cleaning, Session/Segments/Cutting, Totality, Session/Dialogue/Stable,
--     Sealing, Session/Update/Keeping, Session/Chain/Settled, Promises   the proofs
-- * Recall decides what memory may be looked up and how the context window is shared out. The files
--   are under packages/pcltm.
--     Recall/Object      memory_object.py; make_memory_object is `__post_init__`
--     Recall/Selection   memory_selection.py
--     Recall/Budget      context_budget.py, with exact shares in place of floats
--     Recall/Policy      retrieval_policy.py; the search of the store is a parameter
--     Recall/Selection/Eligible, Recall/Budget/Shares, Recall/Policy/Safe   the proofs
-- Base holds what the parts share: Boolean tests, list functions and lemmas (Rows for tables),
-- exceptions, a stable sort for `sorted`, and Python text as code points. Each Tests module
-- applies the theorems of its part to concrete data, and Persona/Samples holds such data.
--
-- Representation. A mode is a text in the source; here it is a data type with the three modes, the
-- texts "any", "none" and "" that the table reads specially, and every other text. Confidences,
-- thresholds and scores are naturals in ten-thousandths; the code only compares them, except in
-- the rank of a candidate, which is in millionths. A confidence of more than four decimal places
-- and the rounding of floats in the rank are not represented. An int that a check wants positive
-- is a natural, where 0 stands for any int that the check refuses. The limit of a retrieval and
-- the budget that a selection is given are naturals: a negative one is not represented. A signal
-- of a mode decision is its truth value. Frozen records are values; the managers and the
-- comparator, which change, are passed on explicitly. Exceptions are the raise results of
-- Base/Results. Checks of a Python type hold by the types here. Recursion is structural
-- everywhere, so no function needs fuel.
--
-- Parameters. The term groups and thresholds of config/routing_rules.yaml are the record
-- RoutingConfig. The environment variables of the manager v2 are arguments. The float fractions of
-- the budget are a type with `floor(available * fraction)` and `fraction > 0` as two functions,
-- about which nothing is assumed.
--
-- A transaction is a function on the tables with the results done, refused (a rollback and an
-- answer) and raised (an exception that rolls back); BEGIN IMMEDIATE holds the write lock, so one
-- call runs on its own. Of the constraints of a table the model has those that a call of the
-- service can meet; the blank texts that a CHECK refuses are refused by the request before. The
-- SHA-256 digests, the token counter and the decimal format of a confidence are functions about
-- which nothing is assumed, and so are the order of the texts of two dates and LIKE in the
-- semantic store. Of `isoformat` and `fromisoformat` the record IsIsoFormat says what Python
-- documents. A score of the resolver adds floats in the source; it is exact here.
--
-- Of Python's texts, `str.lower`, `str.replace` and the text of an int are functions about which
-- nothing is assumed; `strip`, `split` and `in` are defined on lists of code points.
--
-- Not modelled: logging; exceptions inside the table of manager v2, which its model cannot raise;
-- the mode classifier, the rule engine that gathers evidence, lexicons and emotion detectors; the
-- other tables of the SQLite store, the projections, the replacement and the writing of claims;
-- the dictionaries of the audit; hosts, servers and command lines.
pub mod Base
pub mod Memory
pub mod Persona
pub mod Injection
pub mod Semantic
pub mod Session
pub mod Recall
