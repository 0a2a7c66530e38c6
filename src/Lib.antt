-- ===== src/Lib.antt =====
-- face-swap-streamer: the logic of the video face swapper around its neural networks.
--
-- The program detects faces in each frame of a video, decides which source face goes onto which of
-- them, swaps them by a neural network, judges the outcome and writes the video. A command line
-- tool runs it on one video and can resume a run; a FastAPI service runs it on uploads and streams
-- the result. The development models the decisions of the code; the networks, OpenCV, numpy and
-- ffmpeg are parameters, with what the code relies on as named hypotheses.
--
-- Prelude                 tests, lists, counting, association lists, shared by all
-- Floats                  the float operations as an interface; the order laws of IEEE 754 are
--                         the record IsIeee; Floats/Fixed fills it by thousandths
--                         and Floats/Nan adds a NaN to them, for the samples
-- Types                   src/face_swap/types.py: boxes, detections, tracks
-- Matching                src/face_swap/matching.py, SourceTracker: the three phases of `match` are
--                         greedy, carry_through and extras, the last loop is settle
-- Clusters                src/face_swap/matching.py, assign_sources_to_clusters
-- References              src/face_swap/reference_extractor.py: cluster_embeddings, whose loop is
--                         cluster_loop, and the binding of the sources; Rounds has its invariants
-- Config                  src/face_swap/config.py: overrides, load_config and the fingerprint
-- Tracker                 src/face_swap/tracker.py: the track table, update (costs, assignment, absorb,
--                         new tracks, ageing) and restore
-- Quality                 src/face_swap/quality_validator.py: verdict_from_metrics, the strategies,
--                         and retry, whose loop is retry_from
-- Checkpoint              src/face_swap/checkpoint.py: serializable and arrays, write_checkpoint as
--                         a list of writes of which a crash does a prefix, load_checkpoint
-- Observability           src/face_swap/observability.py: Metrics (histograms and registry), Spans (the
--                         tracer; a with block is enter and leave), Health, and Reliability
-- Pipeline                src/face_swap/pipeline.py, run and resume, on the checkpoints of Checkpoint;
--                         errors.py and the run command of cli.py
-- Fanout                  webapp_mp.py, _run_job, with server/swap_worker.py: the reading, draining and
--                         writing threads and the worker processes, which share a pool of slots;
--                         Moves has their steps, Ledger and Slots the places of the slots, Order
--                         what is written, Progress, Outcome and Ends how it ends
--                         (Ends/Returns: that the writer returns), Faces the
--                         matching of faces to sources and a worker's `process` of a frame
-- Routes                  webapp_mp.py: pausing, resuming and stopping a job, and the clean-up, the saves
--                         and the registration of an upload
-- Runner                  src/face_swap/runner.py: rendering and detection; Attempts has the retries of
--                         a frame, Frames the loop, the quality log and the checkpoints
-- Report                  src/face_swap/report_generator.py, compute_kpis, and percentile of metrics.py;
--                         Reviews joins it with the log of Runner and the exit codes of Pipeline
-- Server/Job, Worker      server/worker.py: Job and BatchJob, run_single_job, run_batch
-- Server/Streaming        server/worker.py: run_streaming, its four threads; Moves has their steps, Shape
--                         and Intake what comes from the video, Outflow what goes to ffmpeg, Order
--                         what is written and raised, Waits who can go on, Ends how long it takes
-- Server/Faces            server/worker.py: detect_source_faces
-- Server/Registry         server/main.py: the registered jobs and the workspace, cleanup,
--                         create_job, create_batch, the counters of a batch
-- Server/Sockets          server/main.py: the subscriber lists and queues of the WebSockets
-- Server/Hls              server/main.py: get_hls_file
--
-- Numbers are natural numbers; a list of the code that is indexed by face or source is a function of
-- the index. A value of -1 or None that means absence is `none`. An exception is a value: `none`,
-- an Outcome or a Result. All loops are structural recursions on the list or on the number of
-- steps that is left, so no fuel is needed. The registry's handlers run one at a time, each from
-- its lock to its answer; the threads and workers of Fanout and Server/Streaming take their steps
-- in every order, and a step is what a thread does between two accesses that another thread can
-- see. An iteration of a loop that only waits changes nothing; Moves.Idle says when there is one, and
-- no bound holds for their number. uuid4, os.path.join and the outcome of removing a file are parameters.
--
-- Not modelled: the networks, the image arithmetic, the processes of ffmpeg, the scans of a video for
-- reference faces, the encoding and debug bundles of the runner, the pages and downloads of
-- webapp_mp.py, the single-process webapp.py, the schema of the configuration, the client in C++ and
-- the front end.
pub mod Prelude
pub mod Floats
pub mod Types
pub mod Matching
pub mod Quality
pub mod Checkpoint
pub mod Clusters
pub mod Config
pub mod Fanout
pub mod Observability
pub mod Pipeline
pub mod References
pub mod Report
pub mod Routes
pub mod Runner
pub mod Server
pub mod Tracker
