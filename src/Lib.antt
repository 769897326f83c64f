-- ===== src/Lib.antt =====
-- Verification of the simulation runner of rules_verilog: the Python programs under bin/ and lib/
-- that build, schedule and record simulations.
--
-- The runner creates a job for every test-bench compile and every test and hands the jobs to a
-- JobManager (lib/job_lib.py). Its thread moves jobs through queues as their dependencies finish,
-- starts each in a process group of its own (SubprocessJobRunner) and polls it. When the jobs are
-- done, lib/simmer_results.py counts them up and files the run in a history store. Before that,
-- lib/regression.py finds the tests that are to run, from a cache where it is current, and
-- bin/simmer.py chooses the simulator and the number of jobs; while jobs run, it answers interrupts
-- and lib/simmer_state.py registers the run; lib/rv_utils.py sums up the tests in the end.
--
-- Files:
--   Status         JobStatus of lib/job_lib.py: the statuses of a job and JobStatus.update.
--   Queue          bisect.insort_right over Job.__lt__, as JobManager calls it.
--   Scheduler      JobManager. Scheduler/State has its fields; Skip is
--                  _move_children_to_skipped_locked, Promote is _move_todo_to_ready_locked, Launch
--                  has _can_launch_locked, _take_ready_job_locked, _launch_job and
--                  _graceful_exit_locked, Finish has _complete_job and
--                  _record_incomplete_shutdown, Control has add_job, pause, resume, stop, kill, wait
--                  and interrupted_jobs, Shutdown the end of kill and status_snapshot, Thread is
--                  _run_jobs, and Building has Job.add_dependency and increase_priority.
--   Runner         SubprocessJobRunner: check_for_done, returncode, pause, resume and kill.
--   Timing         _consume_elapsed_time of lib/simmer_results.py and the interval loop of
--                  repository_timings of lib/bazel_profile.py.
--   Results        lib/simmer_results.py: Records and Final have the records of a run up to
--                  finalize_run, Store the history with _merge_stores and save_run, Report
--                  is format_history.
--   CheckTest      bin/check_test.py: the check of a simulation's log.
--   Cpus           detect_allocated_cpus of lib/job_lib.py.
--   RuntimeOptions lib/runtime_options.py: the options of a test and of the command line.
--   Discovery      lib/regression.py: Select has _split_btglob and test_discovery_match, Chunks
--                  _chunk_arguments, Cache the cache of the discovered tests with
--                  _should_use_cached_discovery and _publish_discovery_cache, Refresh
--                  test_discovery_all.
--   CompileCache   lib/compile_cache.py: FileLists is discover_filelist_inputs, Fingerprint has
--                  compile_fingerprint, its file and can_reuse_compile, Json the dictionaries and
--                  _changed_fingerprint_fields, Lock is CompileDirectoryLock, Script
--                  normalize_compile_script_paths.
--   ActiveRuns     lib/simmer_state.py: State has the LSF context and ActiveRun, Loading is
--                  load_active_runs, Format is format_status.
--   Simmer         bin/simmer.py: Interrupts has _prompt_interrupt_action and _wait_for_jobs,
--                  Simulators resolve_run_simulator, Limits get_active_job_limit, Snapshot
--                  _active_run_snapshot, RunDirectories TestJob._claim_run_directory, Compile
--                  VCompJob.pre_run from the choice to reuse a build and VCompJob.post_run, TestEnd
--                  TestJob.post_run, Ending the end of main, with finalize_interrupted_run.
--   Summary        lib/rv_utils.py: Counts is print_summary, Categories calc_category_stats.
--   Base           shared lists, integers and Boolean tests.
--
-- How it is modelled. A job is a number. Its dependencies, children, priority and mode stand in a
-- graph that is built before the scheduler starts, which does not change it, and the statuses of
-- all jobs are one map, so every queue sees an assignment, as the queues of Python share the job
-- objects. A section under the manager's condition variable is one step. Calls of other threads
-- come between any two steps of the scheduler thread, in any order. Hooks of jobs are described
-- by what they assign and whether they raise; the hook post_run and the locked section after it
-- are one step, and so are the last assignment of a launch and its locked section. A poll that
-- finds several jobs done answers with the first of them, as the loop does. A ValueError of the
-- status setter or of an unknown execution mode is a state of its own, in which the thread has
-- ended. What the operating system answers to the runner is an argument of each poll. Times are
-- whole numbers of milliseconds. Regular expressions, `int`, `lower` and `split` of Python's
-- texts, globs and paths are parameters, and so are the answers of bjobs and of the file system.
-- The column of a test's categories is an input of the summary. sha256 is a parameter, as a
-- function on the texts that are fed to it. The compile jobs of a directory come one after the
-- other, as they hold its lock; the file of the fingerprint changes as a whole, since it is
-- written aside and renamed, and its removal succeeds.
--
-- Bounds. The recursion over the children of a skipped job is bounded by the length of the todo
-- queue, since each call follows a removal from it; the bisection is bounded by the length of the
-- list. Both bounds are used up by no input. The walk over filelists is given a number of rounds;
-- one more than the existing files name nested filelists is enough. The recursion of
-- increase_priority is bounded by any number above the ranks of the jobs in a graph without
-- cycles, and the search for a run directory by any number above that of the directories in use.
-- The changed fields of a fingerprint are bounded by any number above the levels of its
-- dictionaries.
--
-- Not modelled: the files, locks and JSON of the history, the scan of /proc, output streams,
-- logging, the template and the options of a compile, the manifest of the checkout, command lines
-- of Bazel and of the simulators, option parsing, lint parsers, the layout of tables and the
-- pages of reports.
pub mod Summary
pub mod Simmer
pub mod ActiveRuns
pub mod Base
pub mod Status
pub mod Queue
pub mod Scheduler
pub mod Runner
pub mod Timing
pub mod Results
pub mod CheckTest
pub mod Cpus
pub mod RuntimeOptions
pub mod Discovery
pub mod CompileCache
