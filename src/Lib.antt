-- ===== src/Lib.antt =====
-- The download engine of Downpeed (backend/, in Go): the core of internal/download, the transfers of
-- internal/protocol/http and the handlers of tasks in internal/httpapi.
--
-- The engine keeps a table of tasks, a queue of the ones that wait and a run for each one that is
-- transferred. The operations of the API (Create, Pause, Resume, Retry, Cancel, Delete, Close) and
-- the goroutines of the runs, retries and timers change them under one lock, and each ends by
-- filling the free slots from the queue. A transfer of a large file is cut into segments, whose
-- progress is a checkpoint that is saved with the task.
--
-- Errors          the sentinel errors of internal/download/task.go and those of a transfer
-- Task            the records of task.go, bt.go and the policy of settings.go
-- Checkpoint      checkpoint.go: ValidateTransferCheckpoint; Layout says what a checkpoint describes
-- Validator       validator.go; http.ParseTime with http.TimeFormat is a parameter, and Normal assumes
--                 of it that a date that was written is read as the same
-- Strings, Paths  what the code uses of Go's packages strings and path/filepath, on Unix paths
-- Numbers         numbers as they are printed and read by fmt and strconv
-- FileName        filename.go: SafeFileName; Safe says what a safe name is
-- Settings        settings.go: validateProxySettings, normalizeBTPolicySettings
-- Http.Segments   internal/protocol/http/segmented_downloader.go: newTransferCheckpoint and the
--                 checks at the start of downloadSegmented
-- Http.ContentRange, Exchange: internal/protocol/http/downloader.go: parseResumeContentRange, the headers of
--                 a request and what an answer is compared with
-- Http.Download, Stream: Download of a file that is not cut into segments, and publishCompletedFile;
--                 net/http and the file system are arguments (World)
-- Http.Segment    segmented_downloader.go: downloadSegment, one segment's transfer
-- Http.Workers    the goroutines of downloadSegmented, which take turns at the work file and at the
--                 checkpoint: a turn is one reading and writing, or one report
-- Manager         manager.go, scheduler.go and the saving of persistence.go:
--   State         the struct Manager; its store and the file system are what they answer
--   Persist       persistTaskLocked, publish, diagnostics
--   Scheduler     enqueueLocked, fillAvailableSlotsLocked, refreshScheduleTimerLocked, settings
--   Failures      taskErrorFor, isRetryableTransferError
--   Runs          scheduleRetryLocked, waitForRetry
--   Reports, Ends run and runBT: their progress callbacks, and what they do at the end
--   Pausing, Resuming, Retrying, Removing (Cancel), Deleting, Closing, Creating: the operations
--   Destination   filename.go: selectHTTPDestination, which takes the first free copy of a name
--   Create        Create whole: its checks, the choice of the ID, and the section of Creating
--   Restoring, Stored, Restore: persistence.go, from a stored record to the restored manager
--   Invariant     what holds between two critical sections, and that each of them keeps it
--   Slots         what filling the slots promises
--   System        the critical sections as steps, in any order
-- Api             internal/httpapi: the handlers of tasks (tasks.go) and the answers to errors, over the
--                 interface TaskService of task.go; Laws says what a client may rely on, and Engine
--                 is the manager as that service
-- Tests of each part stand in modules of that name.
--
-- How the code is read. A function that takes the lock is a function on the manager; one that lets
-- go of it to wait for a run (Pause, Cancel, Close) is one function for each side of the wait. The
-- time of a critical section is one reading of the clock, an argument; instants are natural numbers,
-- with 0 for the zero time. A Go map is an association list, a missing key gives the zero value
-- written out. What goes to files, runs, timers and subscribers is kept as a list of effects, and
-- what comes from the file system, the store and the transfers is arbitrary. A file system is fixed
-- within one call. Integers of the code are int64 with wrap-around where the code adds them up;
-- counters that only count up (retries, generations, runs) are natural numbers. A text is the list
-- of its code points. Copies of values are the values. Loops are over lists, or over the number of tasks
-- that the queue had at the start, as in the code; only the searches for a free name and a free ID, and
-- the printing of a number, have fuel, and enough: Create finds an ID in one more try than there are tasks,
-- if the clock never repeats a value, and a number has fewer digits than its value and one.
--
-- Not modelled: the other settings and their manager, the preparation of a BitTorrent task, the bandwidth
-- limiter, the end of a segmented transfer and the times at which it reports, the HTTP resolver, the
-- BitTorrent transfer, the handlers of settings, BitTorrent and the proxy and the event stream of the
-- API, the database, the engine host, the configuration, the diagnostics, the release tools and the
-- application: for the most part channels, calls of libraries and system calls.
pub mod Base
pub mod Errors
pub mod Checkpoint
pub mod Http
pub mod Task
pub mod Strings
pub mod Paths
pub mod Numbers
pub mod Validator
pub mod FileName
pub mod Settings
pub mod Manager
pub mod Api
