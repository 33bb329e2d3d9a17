-- ===== src/Lib.antt =====
-- Caravault: models and proofs of the synchronization core (src/*.cpp, include/*.hpp).
--
-- Base holds what the modules share: byte strings in the order of std::string (Strings), total
-- orders (Order), std::map and std::set as ascending association lists (Map, Set), thrown errors
-- as results (Results).
--
-- VersionVector models src/version_vector.cpp: the clocks of a file by drive, with increment
-- wrapping at 2 ^ 64, merge and compare; VersionVector.Json its printer and its parser, byte by
-- byte. The main loop of from_json takes the length of the text plus one as fuel; each of its
-- rounds reads a byte.
--
-- Manifest models src/manifest_store.cpp: the tables of create_schema as lists of rows and each
-- method as the effect of its SQL statement. SQLite is not in the repository; its statements are
-- read as the SQL says, with the ids of AUTOINCREMENT ascending, and succeed; exec_with_retry
-- (Retry) takes what they answer, and atomic_write lets them fail. A SELECT without ORDER BY
-- returns the rows as the list has them. A bound string ends at its first NUL.
--
-- Conflict models src/conflict_resolver.cpp: detect_conflicts over the entries of each manifest,
-- and resolve with its strategies in their order.
--
-- Planner models src/sync_planner.cpp over the entries of each manifest: the names of directories
-- (Paths), detect_renames (Renames), topological_sort (Sorting), coalesce (Coalescing), and
-- plan_sync with its indexes (Index), the operations for directories and renames (Emission) and
-- the version chosen for a path (Choice). ancestor_dirs has the length of the path as fuel, which
-- every parent shortens. The queue of the sort has the number of operations as fuel, since each
-- position is pushed at most once.
--
-- Executor models src/executor.cpp over a disk (Disk) that keeps its past states and whose calls
-- fail by a schedule: writes (Writing), execute (Executor), recovery (Recovery), replicas
-- (Replicas). SHA-256 is a parameter, and so are the values of fields that the code leaves
-- uninitialised. Error messages are told apart by their cause. In atomic_write each call on a file
-- and each statement of SQL may fail; elsewhere the statements succeed. A read of a copy that
-- fails delivers nothing; a rename is atomic. Recovery takes relative paths by their names, of
-- which none is a link. Calls to the progress reporter and code for Windows are left out. Copying
-- has the length of the contents as fuel, since each chunk is not empty.
--
-- Merkle models src/merkle_engine.cpp: directory hashes, leaves and diff, whose fuel is the depth
-- of the first tree, since each call goes one level down; Merkle.Scan is build_node over a tree of
-- entries that holds what the calls of std::filesystem on each answer; the name of an entry is its
-- path from the root, without links that fs::relative would resolve.
--
-- Commands models src/main.cpp: the drives that a command opens, and do_scan (Scanning),
-- do_status, do_conflicts and do_verify (Queries), do_resolve (Resolving), do_sync (Syncing). A
-- database that is there may fail to open. Databases of different mount points are different, and
-- statements of SQL succeed here. What is printed is kept for do_status and do_conflicts, and for
-- a dry run as its counts.
--
-- Config models src/config.cpp, and do_config_set of src/main.cpp: a file is its text, and double
-- a type with what the library does with it.
--
-- Logger models src/logger.cpp over the contents of files, its clock as arguments; Progress the
-- state and the line of src/progress_reporter.cpp. Commands that scan or synchronize draw the
-- line, and none logs.
--
-- BloomFilter models src/bloom_filter.cpp for given numbers of bits and of hash functions, since
-- the constructor computes them in floating point. Chunker models src/cdc_chunker.cpp: the
-- fingerprint is computed on 64-bit words, the table entry by entry. A mask is found by doubling
-- at most 64 times, one for each bit of the word. Platform models the text functions of
-- src/platform.cpp.
--
-- Examples holds runs and the theorems at concrete inputs.
--
-- Not modelled: main of src/main.cpp, which reads the arguments, and the parts of src/platform.cpp
-- that ask the operating system. Left out: the summary of src/progress_reporter.cpp, which is
-- printed in floating point.
pub mod Base
pub mod VersionVector
pub mod Manifest
pub mod Conflict
pub mod Planner
pub mod Executor
pub mod BloomFilter
pub mod Chunker
pub mod Platform
pub mod Merkle
pub mod Commands
pub mod Config
pub mod Logger
pub mod Progress
pub mod Examples
