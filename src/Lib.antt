-- ===== src/Lib.antt =====
-- The Python SDK of the Agent Trust Protocol (src/atp), modelled and verified.
--
-- A system registers at the Exchange, runs tasks, stores the full proof of each task locally and
-- commits its hashes. Another system challenges it for the proof of a task, checks the content
-- against the declared hashes and the hashes against the commit, and reports what it found.
--
-- The parts, with the files that model them:
--   Base             names and lemmas that the parts share: Boolean tests, association lists (a dict,
--                    in insertion order), and texts (cutting, stripping, the last segment of a path)
--   Python           the language: exceptions (core/exceptions.py and the built-in ones, with the test
--                    that an except clause makes), results, JSON values, json.dumps with sorted keys,
--                    datetime to the microsecond, and Exec, the monad of methods that change state
--                    and may raise (what was written before a raise stays written)
--   Models           the data of core/models.py
--   Hashing          core/hashing.py: content hashes, the dependencies hash, the proof hash
--   Storage          core/storage.py: the interface ProofStore, what a store answers to sequences of
--                    calls (Storage.Contract), InMemoryProofStore (Storage.Memory) and SQLiteProofStore
--                    (Storage.Sqlite), with expiry, cleanup cycles and the set-up of the schema
--   Wire             HTTP messages, the code outside the repository (Runtime), the reading of
--                    responses (the from_api_response methods) and of JSON-RPC answers
--   Client           ATPClient of core/client.py: registration (Client), commits (Client.Commits),
--                    queries (Client.Queries), reports (Client.Reports), challenges
--                    (Client.Challenge), signatures (Client.Signature)
--   Task             ATPTaskContext, atp_task, atp_response and ATPResponseWrapper of core/utils.py
--   Upstream         challenge_and_verify of core/utils.py, over the proof as it was sent
--   Gather           pre_challenge_dependencies of core/utils.py
--   Adapter          MinimalAdapter of adapters/base.py
--   Config           ATPConfig of core/config.py, with int() of the language in Python.Integers
--   Logging          what core/logging.py configures
--   Tests            the theorems at concrete inputs
--
-- A method of the client is an action on a World: the client's fields, the event loop that runs, and
-- the state of the other side of the network, which a request changes. A task acts on an Agent: a
-- World, the state of a store, and the task; an adapter is an agent of its own, and gathering adds
-- a list of dependencies to a World. Function names are those of the source, without a
-- leading underscore; constructors and fields keep the source's words.
--
-- Parameters: httpx (send), SHA-256, pydantic's validation and dumping, the parsers of dates, UUIDs
-- and JSON, SQLite's texts (Codec), base58 and PyNaCl. Nothing is assumed of them but what a theorem
-- names.
--
-- Fuel: the decimal digits of n are computed with fuel n, which decimal's lemma shows to be
-- enough; the walk up the exception classes takes four steps, the height of the hierarchy. All else
-- is structural recursion.
--
-- Conventions: the clock is read by the caller, who passes the reading in. A method of the
-- in-memory store holds the lock throughout and is one step. JSON numbers are integers and texts hold
-- no lone surrogates, so that the UnicodeEncodeError of hashing one is left out. Messages of
-- exceptions are kept only where the code returns them as results. Log lines are left out.
--
-- A method of the SQLite store is one step over a database that answers, but for Storage.Sqlite.Race,
-- where others run within a get, Storage.Sqlite.Faults, where connections and statements fail, and
-- Storage.Sqlite.Schema, where callers of _ensure_schema are interleaved at every await.
--
-- Not modelled: SQLite itself and the creation of directories, the abstract FrameworkAdapter, what is
-- logged, and the re-exports of the packages. int() is that of ASCII texts, without the limit on
-- the number of digits.
pub mod Adapter
pub mod Base
pub mod Client
pub mod Config
pub mod Gather
pub mod Hashing
pub mod Logging
pub mod Models
pub mod Python
pub mod Storage
pub mod Task
pub mod Tests
pub mod Upstream
pub mod Wire
