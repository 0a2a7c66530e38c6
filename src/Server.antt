-- ===== src/Server.antt =====
-- server/: the FastAPI service. Job holds the data, Faces and Worker follow server/worker.py; Registry,
-- Sockets and Hls follow the state and the handlers of server/main.py.
pub mod Job
pub mod Faces
pub mod Worker
pub mod Registry
pub mod Sockets
pub mod Streaming
pub mod Hls
