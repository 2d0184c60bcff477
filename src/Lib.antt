-- ===== src/Lib.antt =====
-- OpenLabels detects sensitive data in documents, resolves the detected spans, and evaluates policies on
-- what was found. This library is a model of the deterministic core of that pipeline, with its theorems.
--
-- The parts, with the source files under src/openlabels/ that they translate:
--   Types          core/types.py: entity type names and their normalisation, detection tiers, spans
--                  (`Span.__post_init__` is `post_init`).
--   Pipeline       core/pipeline/span_resolver.py (Resolver: `resolve_spans`, `deduplicate` for
--                  `_deduplicate`, whose inner loop is `scan` and whose merge of two spans is `merge_spans`),
--                  core/pipeline/chunking.py (Chunking: `chunk` for `TextChunker.chunk`),
--                  core/pipeline/span_validation.py (Validation), and core/pipeline/entity_resolver.py
--                  (EntityResolver: `find`, `union`, the calls of `union` that the sieves make as `links`;
--                  Resolve: `resolve`). Forest, Connected, Index, Sieves, Groups and Meaning hold its proofs.
--   Checksum       core/detectors/checksum.py and the validators of core/_rust/validators_py.py that it
--                  calls: a function `validate_x` for each of theirs.
--   Policies       core/policies/schema.py (Schema) and core/policies/engine.py (Engine: the evaluation
--                  context and `_evaluate_policy`; Evaluate: the merge, `evaluate`, the loaded policies).
--   Filter         cli/filter_parser.py: tokens, expressions and the parser, whose methods and loops are the
--                  modes of `parse_at`; Printer is the specification that it reads back, and Steps, Fuel and Total hold
--                  the proofs about its steps, its fuel and the end of the tokens.
--   Scoring        core/scoring/scorer.py: weights, categories, co-occurrence rules, scores and tiers.
--   Breaker        core/circuit_breaker.py: the state machine (`record_success`, `record_failure`,
--                  `allow_request`) and the guarded call (Guarded).
--   Jobs           jobs/queue.py (Queue: the table of jobs and the operations of `JobQueue`; Failed: the dead
--                  letter queue; Cleanup: stuck and expired jobs; Run: sequences of operations and of the worker's
--                  `dequeue_next_job`).
--   Server         server/middleware/rate_limit.py (RateLimit: `check_and_record` and `check_rate_limit`; Log is
--                  the log of requests that it is compared with) and server/pagination.py (Pagination:
--                  `apply_cursor_pagination`).
--   Remediation    remediation/manifest.py (Manifest) and remediation/quarantine.py (Quarantine: `quarantine`,
--                  `restore_from_quarantine`).
--   Prelude        Boolean tests, lists, sorting, and Python's strings and dictionaries.
--
-- How they interact: the detectors call the validators of Checksum and make spans; the resolver takes all
-- spans of a document, compares their types through `normalize_entity_type`, and returns disjoint spans in
-- text order; the risk score and the policy engine read the entities found. The chunker splits long
-- texts before detection. The circuit breaker guards calls of outside services.
--
-- Choices of the model:
--   A string is the list of its code points, and `upper` and `lower` act on ASCII, in which all names
--   of the tables are written; in the validation of spans, which reads documents, `lower` is an argument. A confidence is a non-negative number in millionths, which the code
--   compares and maximises; the score's arithmetic is exact, and `math.log` is its parameter `ln`. A
--   ValueError of a constructor is `none`. A Python set is the list of its members in the order of
--   insertion.
--   The clock of the breaker is an argument of each operation. Its operations hold the breaker's lock, so
--   concurrent callers are a sequence of operations, and a guarded call has the operations of other
--   callers between its entry and its exit.
--   The inner loop of the resolver removes accepted spans while it runs: it is recursion on the accepted
--   spans that are still to be seen, latest first, with those already passed beside it. The loop of the
--   chunker is on fuel, one more than the length of the text, since each round moves on by a character at
--   least. The parser is on fuel that bounds the depth of its calls: 4 for each token, since at most three
--   methods call each other before one consumes a token, and 3 more. Behind the last token the code reads that
--   token over and over, or raises IndexError; the model stops there with an outcome of its own, `past_end`, which
--   does not occur where the last token is EOF, as the lexer makes it.
--   The parent list of the union-find is a function of the index, and `find` has one more fuel than there
--   are mentions, since no tree is deeper than the number of unions that made it.
--   The table of jobs is a list of rows. Each operation of the queue is a transaction of its own, and the
--   rows that other transactions have locked are an argument. Times are numbers of seconds.
--   The times of the rate limiter are numbers of microseconds, and the counts that Redis gives are an
--   argument.
--   The files of a quarantine are a function from paths to contents. SHA-256, the move and rsync are
--   arguments. A move and rsync answer what they leave and whether they succeeded, so that one that fails may leave
--   a copy. What their documentation says of a success is the hypotheses `Moves` and `Syncs`; that rsync
--   leaves the files where it fails is a condition of its own, `FailsClean`, and documented nowhere. The making
--   of directories and the saving of the manifest, which may raise, are left out.
--   The client that follows the cursors of pages is on fuel, one more than there are rows, since each page has
--   a row.
--
-- Not modelled: text extraction, the detectors' regular expressions and neural models, the database, the
-- rest of the server and its routes, the cloud adapters, labelling and the commands of the command line, which call
-- libraries and services; the lexer and the execution of filters; serialisation to dictionaries and logs.
pub mod Prelude
pub mod Types
pub mod Pipeline
pub mod Breaker
pub mod Checksum
pub mod Policies
pub mod Filter
pub mod Scoring
pub mod Jobs
pub mod Server
pub mod Remediation
