-- ===== src/Lib.antt =====
-- ControlGate is the backend of a scanner that judges a repository, or a running application, against
-- the controls of the OWASP ASVS 5.0. A scan runs a static engine (semantic_engine/), inspectors of
-- configuration and of dependencies, and live probes (app/domain/analysis/); it stores one summary
-- document. The ASVS service (app/services/asvs_service.py) merges the findings of that summary and
-- the attestations of its owner into one verdict for each control, stores the results, and computes
-- the compliance figures from them. Around this stand the access rules (app/core/): quota, rate limit
-- and the extraction of uploaded archives; the classifier asks language models through a pool of
-- providers (semantic_engine/classifier/).
--
-- The parts and their files:
--   Asvs            app/services/asvs_service.py. Types has the documents; Evidence the items of
--                   evidence (`_evidence_from_vuln`, `_dynamic_evidence_for_control`); Config, Attest,
--                   Advisory and Static one function for each `_merge_…` method, under the method's
--                   name; Compute the dispatch `_compute_result`; Results the rebuild
--                   `build_results_for_scan` over the collections of the store; Compliance the
--                   summary and the attestation queue.
--   RateLimit       app/core/rate_limit.py. `Limiter` is the module's two globals, `check_key` is
--                   `check_rate_limit` behind the key, and Client is `_resolve_client_ip`.
--   LlmPool         semantic_engine/classifier/llm_pool.py. `Pool` is the object's state; `call`,
--                   `mark_failed` and `reset_soft_exhausted` are its operations.
--   Archive         app/core/archive.py. `Disk` is the file system; Paths has `_safe_destination`,
--                   Extract the copy under a budget and the loops over the members.
--   Dependencies    app/services/dependency_scanner.py: `query_osv`, `_to_finding`,
--                   `_extract_severity`, `evaluate_v15_2_1`, and the de-duplication.
--   Permissions     app/core/permissions.py, with the part of app/api/routes/scans.py and of
--                   app/services/scan_service.py that inserts a scan.
--   Network         app/core/network.py: `_validate_public_host` and the two checks of URLs.
--   Discovery       semantic_engine/path_discovery.py. Graph has `_build_adjacency`, Bfs `_bfs_paths`,
--                   Labels the tests on labels (also of semantic_engine/query_executor/executor.py),
--                   and Select `_collect_patterns`, `_attribute_rule` and `discover`.
--   Executor        `_deduplicate_slices` of semantic_engine/query_executor/executor.py.
--   Pipeline        semantic_engine/pipeline.py. Forest is the union-find of
--                   `_cluster_by_same_finding`, Cluster the rest of it, Findings the filter and
--                   `_dedupe_vulnerabilities`, Report `_format_vulnerability`, and Analyze the steps of
--                   `analyze_code`, which call the classifier.
--   Classifier      semantic_engine/classifier/classifier.py. Safe is `_code_is_safe`, and Workers
--                   `classify_slices`: `Queue` is what its workers share, and a `Turn` what one does.
--   Accounts        app/services/auth_service.py over `Db`, its two collections; Resets has the
--                   password resets, and Session app/api/deps.py, the route `logout`, and the
--                   deletion of expired revocations that app/db/mongo_init.py asks for.
--   Prelude         names of the library passed on, Boolean tests, lists, dictionaries as association
--                   lists, and Python's stable sort.
--
-- How the code is read: a handler is a function from the state to the state and an answer; an
-- exception is an answer of its own (`none`, `false` or a constructor). A missing key of a document is
-- `none`. Floats that are only compared (confidences, CVSS scores) are whole numbers of a fixed unit,
-- times are whole numbers, and a text with inserted values is a constructor that holds the values.
-- Errors that the libraries may raise are arguments where a handler catches them: which stage of an
-- analysis raises, which read of an archive, and whether the write of a revocation goes through. The
-- logout and the start of a scan read the clock twice, and take a second reading.
-- `async` handlers are run one after the other; the workers of the classifier, which interleave, are
-- a sequence of turns. Loops are structural recursions but two: `find` of the union-find takes fuel
-- above the height of its tree, for which one more than the number of compared pairs serves, and the
-- breadth-first search takes the source's own bound on its operations.
--
-- From outside come: what zipfile and tarfile read of an archive, what OSV.dev and the model providers
-- answer, what Python's library finds in a URL and in an address and what a name resolves to, the
-- rounding of a percentage, the object id that a text stands for, the hashes of tokens and passwords,
-- the claims of a decoded token at a time, the time that a number stands for, and whether a regular
-- expression of the classifier finds a match. Each is an argument of the definitions that use it, and
-- so is the heuristic score of a path, a float.
--
-- Not modelled: the portfolio dashboard and the PDF export of the ASVS service, which only present
-- results; the throttle and the HTTP clients, which are I/O; the parsers of dependency manifests; the
-- parsers and graph builders of the static engine, and the matching and the paths of its queries; the
-- prompts of the language model; the live scan; the profile routes and the OAuth exchange; the
-- background run of a scan.
pub mod Prelude
pub mod Asvs
pub mod RateLimit
pub mod LlmPool
pub mod Archive
pub mod Dependencies
pub mod Permissions
pub mod Network
pub mod Discovery
pub mod Pipeline
pub mod Classifier
pub mod Accounts
pub mod Executor
