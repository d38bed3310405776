-- ===== src/Lib.antt =====
-- Verification of the trade risk engine (src/trade_risk_engine): the gates that may reject a trade,
-- the chain and the authority that ask them, the sizing of a stake, and the provider with its receipts
-- and events.
--
-- A caller hands a proposed trade to `RiskAuthority` (engine.py). `evaluate_trade` runs the pure gates
-- of gates.py in a fixed order on a decision that starts approved; `evaluate_with_state` asks a kill
-- switch, a timed breaker and a loss gate first, which keep state that settled trades feed and
-- snapshots save. `kelly_fraction` (kelly.py) computes a stake on its own.
-- `RiskProvider` (provider.py) wraps an authority, adds a report of each pure gate, and builds a receipt;
-- `WebhookEmitter` posts events, and benchmark.py measures how long an evaluation takes.
--
-- Files:
--   Prelude     the numbers, lists and options that the rest uses
--   Py          the parts of Python that the code calls: exceptions as results (Py/Except), `float` as
--               IEEE binary64 with its rounding (Py/Float), `datetime` and `timedelta` (Py/Time),
--               formatting of numbers (Py/Format), numbers that need not be floats (Py/Number)
--   State       state.py: structs with what their `__post_init__` refuses; State/Json is `to_json` and
--               `from_json`, with the codec of msgspec as a parameter
--   Gates       gates.py, a module for each gate: Drawdown, Concentration, ExpectedValue, LossWindow
--               (`evaluate_consecutive_losses`), ClusterCap, KillSwitch, TimedBreaker
--               (`TimedCircuitBreaker`), LossGate (`ConsecutiveLossGate`); Answers and Pass hold what
--               the pure gates share, and Pass/Monotone what floats keep of the order
--   Engine      engine.py: Chain is `_evaluate_stateless`, Tracing is the same with its spans, and
--               Authority is `RiskAuthority`; Authority/Session is any sequence of evaluations, settled
--               trades and operator actions on one authority
--   Kelly       kelly.py; Kelly/Fraction is about the fraction of the stake
--   Config      config.py: Config reads the sections of the parsed YAML, Config/File is the loader with its
--               warnings, where the file and its parsing are parameters
--   Provider    provider.py: the report of the gates and the authoritative decision; Provider/Request is
--               the validation of a request, Provider/Evaluate is `RiskProvider.evaluate`; Provider/Desk is
--               any sequence of requests and of what else is done with its authority
--   Receipts    provider_receipts.py, with json.dumps, which may raise, SHA-256 and Python's
--               string functions as parameters
--   Benchmark   benchmark.py: the percentiles, the report and the run, with `fmean` and the clock as
--               parameters; Benchmark/Main is the command line
--   Webhook     webhook.py: the event and the retry loop, with the HTTP client as a parameter;
--               Webhook/Spans is the loop with its span and log
--   Execution   execution.py
--   Tests       the theorems at concrete inputs, and runs
--
-- How code becomes definitions: a gate takes the decision and returns the decision afterwards with its
-- answer, or the exception. A method of a class with state takes the object and returns the new one. The
-- methods named `record` are `record_trade` here. A method of several steps is a chain of definitions,
-- each with the rest of the code behind one test. The time that an evaluation takes is an argument, and
-- so is the callback `on_trip`, a function on the decision.
--
-- Bounds: a finite float is a natural number of units of 2^-1074, so every double is exact. The search
-- for the exponent of a result runs over the 2046 exponents of binary64 and is complete, since a larger
-- result overflows to an infinity. The search for the shortest decimal digits runs to 17, which always
-- identify a double.
-- A rank of the benchmark is computed in doubles, so its theorems are for fewer than 2^53 samples, which
-- are counted exactly, or 2^40 where the rank is compared with the one in whole numbers.
--
-- Tracing is recorded as the calls that the code makes of OpenTelemetry, whose provider is a parameter, by
-- the module of its class; it is the same throughout an evaluation.
--
-- Not modelled: the log of the authority, which does not change a result; a callback that calls the
-- authority again; the rule by which Python compares two datetimes of one `tzinfo` object without their
-- offsets, which differs from the rule for instants only where the offset of a zone changes; the checks
-- of Python types, which are types here except in a provider request; what pydantic checks of a webhook
-- event and of a trade outcome; the codec of msgspec, of which the round trip of a snapshot only supposes
-- that it restores that snapshot; the parsing of the command line of the benchmark; and exceptions that
-- are no `Exception`, such as the cancellation of a task.
pub mod Prelude
pub mod Py
pub mod State
pub mod Gates
pub mod Engine
pub mod Kelly
mod Tests
pub mod Webhook
pub mod Execution
pub mod Provider
pub mod Benchmark
pub mod Receipts
pub mod Config
