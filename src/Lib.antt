-- ===== src/Lib.antt =====
-- A verification of hwvar, which measures how much the performance of a machine varies from one
-- processor to the next.
--
-- The program (src/main.cc) picks a set of processors, makes one worker thread for each (src/worker.c,
-- include/worker.h), the main thread itself being the worker of the first, the dirigent, and lets
-- the workers run benchmarks (src/benchmarks) in rounds: all at once, one after another, or two
-- benchmarks on two sets of processors. A unit of work goes to a worker through its mailbox, `struct
-- arg`, under a lock and a condition variable, and comes back by it; the samples go to one array for
-- each run, which is printed as a table.
--
--   * Base: booleans, lists, words and strings that the other files share.
--   * Benchmark: `benchmark_t` (src/benchmarks/benchmark.h) and `work_t` (include/worker.h). A
--     function pointer is the name of the function that it points to.
--   * Mailbox: `struct arg` and the functions `queue_work`, `wait_until_done`, `wait_for_work`,
--     `return_finished_work` and the head of `worker`. Mailbox.System has a worker thread and the
--     main thread as a step function over sequences of turns, a turn being a section under the
--     lock; spurious wake-ups are turns. Mailbox.Invariant, Delivery and Progress are about every
--     sequence of turns.
--   * Registry: the table of src/benchmarks/benchmark.c, its look-ups and `init_benchmarks`.
--   * Options: the loop of `main` over its options with the values that they take, and the checks
--     on the two sets of processors. What `getopt_long` finds on the command line is a list; what
--     `stat` and `fopen` answer depends on the files that the options before have opened;
--     Options.Said has what each option says by itself, as the description that Options.Last
--     compares the loop with.
--   * Tuning: `tune_time`, `tune_benchmarks_time` and the part of `main` with --tune and --auto.
--     The clock is the sequence of its readings; a round for each reading up to one that is past the
--     second is fuel enough, as Tuning.Ends shows.
--   * Selection: the loops of `main` over the arguments of `--benchmarks` and `--pmcs`. Fuel: a
--     round of a loop takes at least one character, so the length of the argument and one are
--     enough.
--   * Result: `benchmark_result_t`, the measuring loop of `worker`, and `result_print`. Result.Row,
--     Rounds and Table follow one row, the array and the printed table.
--   * Runner: `run_in_parallel`, `run_one_by_one`, `run_two_benchmarks`, `synchronize_worker_init`
--     and `stop_workers` over the mailboxes of all workers, for the order of turns in which
--     every worker takes its work, all meet at the barrier of `init_step`, and then each makes its
--     repetitions. Runner.Each has the lemmas on loops over mailboxes, Runner.Barrier those on the
--     barrier. What hwloc answers of two sets of processors is a parameter.
--   * Rendezvous: a run of `run_in_parallel` or `run_two_benchmarks` with any number of workers,
--     whose threads are interleaved in any order by a step relation, and with the pthread barrier
--     at which they meet: the sections of `worker` under the lock, and those of the main thread,
--     are steps. The barrier lets all go when as many have come as `init_step` says.
--     Rendezvous.Stages has how far a thread has come, Inv the invariant, Moves, Steps and Reached
--     that every step keeps it, Safety and Progress what follows.
--   * Timestamp: the time stamps of include/arch.h for x86_64 and for 32-bit PowerPC, where the
--     clock is read in two halves. The values that the instructions find are parameters. Two rounds
--     are fuel enough for `read_timebase` if the clock advances by less than 2 ^ 32 in six reads.
--   * Binding: `bind_thread` with the functions that ask where a thread may run, in full; the
--     mailbox has of it what it does to `struct arg`. The bitmaps of hwloc and the answers are
--     parameters.
--   * Spawn: `spawn_workers`. hwloc and pthreads are parameters.
--   * Pmu: include/arch.h, the counters of a processor. Pmu.Arm has aarch64, a state of registers;
--     Pmu.Intel has x86_64 with libjevents, for each of the methods that the file can select, on
--     Linux and McKernel; Pmu.Bluegene has Blue Gene/Q, and Pmu.Plain the platforms without
--     counters. Pmu.Work joins the measuring loop of `worker` with the functions for x86_64.
--     Pmu.Events has what these share. What the processor, the operating system and the libraries
--     answer are parameters.
--   * Driver: the end of `main`, from `synchronize_worker_init` to `stop_workers`.
--   * Kernel: the benchmarks themselves; Kernel.Defs has abstract floating-point numbers,
--     Kernel.Arrays memory with uninitialised cells, Kernel.TuneSize `tune_size`, Kernel.Hacc the
--     kernel of src/benchmarks/HACCmk.c, whose loop over sizes has the size and one as fuel,
--     Kernel.Dgemm that of src/benchmarks/dgemm.c, Kernel.Capacity that of
--     src/benchmarks/capacity.cpp on bytes, Kernel.Stream those of src/benchmarks/stream.c on one
--     block of memory for the three arrays, and Kernel.Fwq that of src/benchmarks/fwq.c, with one
--     round of fuel more than its count has steps. The operations on floating-point numbers are
--     parameters, so that an equation fixes their order.
--
-- Machine words: `unsigned` wraps at 2 ^ 32 and `uint64_t` at 2 ^ 64, written out where the code
-- computes with them. Memory that the code leaves uninitialised is a parameter. Failed assertions,
-- and threads that block, are outcomes of their own.
--
-- Not modelled: what is printed to standard error, src/barrier.c and include/barrier.h (a copy of
-- another project, for macOS), the time stamps that are a single instruction, what `pmu_info`
-- prints, the option loops of the kernels, the kernel of src/benchmarks/sha256.c, and those that
-- wrap other projects (src/benchmarks/hpccg.cpp and minife.cpp).
pub mod Base
pub mod Benchmark
pub mod Mailbox
pub mod Registry
pub mod Selection
pub mod Result
pub mod Runner
pub mod Rendezvous
pub mod Timestamp
pub mod Binding
pub mod Spawn
pub mod Driver
pub mod Kernel
pub mod Options
pub mod Pmu
pub mod Tuning
