-- ===== src/Lib.antt =====
-- CloudMark: the Controller's state and its decisions.
--
-- CloudMark measures cloud servers. Agents join the Controller in pairing sessions, the Controller
-- queues tasks for them in its store, waits for their results, and reads campaigns and topology out of
-- what is stored. This library models that core:
--
--   Store, from cloudmark/database.py. A `Database` holds the tables as lists in rowid order, and the
--     task secrets that live in memory only. Each method of the class `Database` is a function of the
--     same name from the time and the state to the new state and its result. Store/Schema has the rows,
--     Store/Runs, Store/Secrets, Store/Tasks, Store/Pairing, Store/Campaigns and Store/Costs the
--     methods, and Store/Tasks/Calls the type of all calls that change the state, so that a history is a
--     list and an invariant is proved by induction on it. Below them stand the proofs: Tasks/Advances,
--     Tasks/Others and Tasks/Lifecycle (how a row may change), Tasks/Secrets, Tasks/WellFormed and
--     Tasks/Invariant (well-formedness), Tasks/Claiming (the queue), Tasks/Finishing (how tasks end),
--     Runs/Soundness, Runs/Cancellation, Runs/Listing, Pairing/Readiness, Costs/Inserting and
--     Costs/Immutable.
--   Placement and Topology, from cloudmark/topology.py: what provider metadata shows of a pair of
--     Agents, and the assessment of the declared scope against it. Topology/Placed and
--     Topology/Evidence have the proofs.
--   Campaigns, from cloudmark/campaigns.py: Contract (the immutable contract), Attempts (which runs
--     count), Tally (the loop that counts them) and Projection (the view that decides on the next
--     window); Windows, Days, Active, Covering, Dispatch and Progress have the proofs.
--   Runner, from cloudmark/runner.py: the context that a benchmark reports through. Runner/Progress
--     has the proofs.
--   Remote, from cloudmark/remote.py: time limits and steps (Planning), which Agent is admitted
--     (Admission), what is read out of a task's result (Results), and the dispatch with its waiting loop
--     (Dispatching); Outcome, Ordering, Envelopes and Attribution say how it ends.
--   Distributed, from cloudmark/distributed.py: the validation of a pair (Pairs) and the wait for a
--     task (Waiting).
--   Suitability, from cloudmark/suitability.py: the gates of the workloads (Rules, Gates,
--     Requirements), the dictionary of evidence (Evidence), which runs count (Runs), what each suite
--     puts into the dictionary (Candidates, Services, Extraction), the verdict on a workload (Verdict),
--     the contracts of a run (Contracts, Boundaries, StorageContract), the cohorts with their samples
--     and statistics (Metrics, Statistics, Cohorts, Collecting, MetricCohorts, Observations) and
--     `evaluate_suitability`, which reads the runs of the store and the Agents that it looks up
--     (Evaluation); Export prints the cohorts. Best, Fit, Levels, Percentages, Provenance,
--     Distinct, Builders, Counting and Sampling have the proofs.
--   Storage, from cloudmark/storage_campaigns.py: whether the measurements of a run are complete
--     (Measurements, Completeness), whether it is a window of a campaign (Windows), the contract
--     (Contract) and the view of a campaign (Projection). Counting and Dispatch have the proofs.
--   Cost, from cloudmark/cost.py: the price (Amounts), the other parts of an observation (Parts), the
--     observation (Observation), the cells and lines of a table (Csv) and its export (Export).
--     RoundTrip, Texts, Cells, Exporting, Refusals and Serving, which leads from the store to the
--     export, have the proofs.
--   Profiles, from cloudmark/profiles.py: the tables of jobs. Network, Storage, Postgres, Databases
--     and Web are the dictionaries themselves.
--   Python: JSON values with Python's truth, equality and loops, texts, exceptions, and `Platform`.
--   Prelude: tests, tables with keys, integers, floats and doubles. Samples: worked examples.
--
-- How the source is read. The lock and the transaction make each method of the store one step; an
-- exception leaves the state as it was. Time stamps are numbers of microseconds, since the texts of
-- one format are ordered like the instants; the monotonic clock is one, too. The time comes in as an
-- argument, one instant per call. A JSON column holds the decoded value. Status columns hold one of
-- five words or another text. Two rows with one sort key stand in rowid order. A float is the exact
-- fraction that it stands for, an infinity or NaN. The sums, products and quotients of the statistics
-- of a cohort are rounded to the nearest double (Prelude/Doubles); other quotients are exact. Zero has
-- no sign. Lower case, case folding, white space and identifiers are those of ASCII. `round` is taken
-- of the exact quotient, a half to the even digit. A set is a list without repetitions, and the key
-- of a dictionary that is a tuple of texts is a record of them. The number in a cohort's id is kept as a number. What
-- Python itself prints for a value that is no text, `float` of a text, `ipaddress.ip_address`, the
-- reading and printing of ISO 8601 times, `json.dumps` and `urlparse` are the fields of `Platform`, a
-- parameter of every definition that uses them. Run ids begin with a letter, as the ids that the
-- Controller makes do, and so sort behind time stamps. Random task ids are arguments.
--
-- The two waiting loops (`run_remote_benchmark`, `wait_task`) are recursion on a schedule: a list of
-- iterations, each with the clock, the cancellation token and the calls that other threads make before
-- it. They return `none` only where the schedule ends while they still wait; one that reaches the time
-- limit is long enough. The scaling of a double is recursion on a number of doublings, 1074 and 971,
-- which are those of the least and the greatest double. The other loops are structural recursion. The
-- day of a storage run is the first ten characters of its time as ISO text.
--
-- Not modelled: the migrations of cloudmark/database.py, the child processes of cloudmark/runner.py,
-- the constant texts of the published policy in cloudmark/suitability.py, the HTTP server, the Agent,
-- the benchmark executors, the probes of the host, the dashboard and the scripts.
pub mod Prelude
pub mod Python
pub mod Store
pub mod Placement
pub mod Topology
pub mod Campaigns
pub mod Runner
pub mod Profiles
pub mod Remote
pub mod Distributed
pub mod Suitability
pub mod Storage
pub mod Cost
pub mod Samples
