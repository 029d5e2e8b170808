-- ===== src/Lib.antt =====
-- The Archivematica worker (worker/worker): the Python program that takes batches of tasks from a
-- Gearman server, runs the client script of each task, and writes codes, texts and events back.
--
-- How the parts interact. A pool of processes (client/pool.py) registers the scripts. A process
-- (client/gearman.py) turns a request into jobs, whose arguments client/utils.py reads, and runs
-- them by client/worker.py, which calls the script's `call` on the jobs and updates the rows of the
-- table of tasks through client/job.py. The scripts under clientScripts write to the jobs' texts and
-- set their codes; several run commands of the format policy registry through utils/dicts.py and
-- utils/executeOrRunSubProcess.py, and insert PREMIS events.
--
-- Which file models which part, by paths below worker/worker:
--   Prelude            shared names; texts, paths, dicts, integers and exceptions of Python
--   Job, Job/Context   client/job.py, with the rows of `Task` in main/models.py
--   Metrics            the counters of client/metrics.py that the worker changes
--   Runner             client/worker.py
--   CommandLine        client/utils.py; CommandLine/Shlex is `shlex.split`
--   Gearman            client/gearman.py
--   Pool               client/pool.py, and `get_module_concurrency` of client/loader.py
--   Events, Subprocess the columns of an event (utils/databaseFunctions.py), and `check_output`
--   ClamScan           clientScripts/archivematica_clamscan.py
--   VerifyChecksum     clientScripts/verify_checksum.py
--   ReplacementDict    utils/dicts.py
--   ExecuteOrRun       utils/executeOrRunSubProcess.py
--   Transcoder         clientScripts/transcoder.py
--   Validator          clientScripts/validate_file.py
--   ChangeNames        clientScripts/change_names.py
--   NameChanger        clientScripts/change_object_names.py
--   Rows               the rows of main/models.py that the scripts share, and what surrounds them
--   Database           utils/databaseFunctions.py
--   FileOperations     utils/fileOperations.py
--   Normalize          clientScripts/normalize.py
--   IdentifyFormat     clientScripts/identify_file_format.py
--   Characterize       clientScripts/characterize_file.py
--   MoveOrMerge        clientScripts/move_or_merge.py
--   Tests              runs on concrete data
-- A function of the source has the name of its definition, in lower case with underscores and with no
-- leading underscore; a method takes its object as a record and returns the changed one.
--
-- What is a parameter. The clock, the operating system's processes, the file system, the rows of the
-- database that are only read, `unidecode` and NFC, ClamAV and the hashsum tools enter as arguments or
-- as fields of a record `Environment` or `System`. An exception is a value of `Result`; what a script
-- changed before it raised is in the state that is returned beside it. A reading of the clock is a
-- number, and exit codes are integers of any size, as in Python.
--
-- The scripts that write to the database are of the type `Script` (Prelude/Script) over a record
-- `World` of tables, with the job and the disk. The disk has any type: its functions are fields of
-- `Site` and of the record of a script. In Normalize it is the trace of the commands that were run.
-- Whether the database refuses a row is `Site.refuses`; `HasPrimaryKey` says of it that a file whose
-- key is taken is refused. An update of rows that are there succeeds.
--
-- Fuel. The decimal digits of a number take the number itself as fuel, each round dividing by ten. The
-- search for a free name takes the fuel that it is given, and any that exceeds the first free number
-- is enough. Every other loop runs over a list.
--
-- What is not modelled: the server, the dashboard and the tests; METS and rights documents, uploads
-- and the other client scripts; logging, connections to the database and the threads of the pool,
-- whose effects appear as steps; the parsers of arguments; links and the modes of files. The events of
-- ClamScan, VerifyChecksum, Validator and NameChanger are without identifiers and agents, which those
-- of Database have, and their dates are those that the scripts give, which the save replaces. What an
-- `on_success` of Transcoder does to the command is the code that it returns; the one of Normalize is
-- called by Normalize/Linker where the command's own code is 0. The sizes in the settings of ClamScan
-- are fractions: a float that is negative or not finite is left out.
pub mod Prelude
pub mod Job
pub mod Metrics
pub mod Runner
pub mod CommandLine
pub mod Gearman
pub mod Pool
pub mod Events
pub mod ClamScan
pub mod Subprocess
pub mod VerifyChecksum
pub mod ReplacementDict
pub mod Transcoder
pub mod ExecuteOrRun
pub mod Validator
pub mod NameChanger
pub mod Tests
pub mod ChangeNames
pub mod Rows
pub mod Database
pub mod FileOperations
pub mod Normalize
pub mod IdentifyFormat
pub mod Characterize
pub mod MoveOrMerge
