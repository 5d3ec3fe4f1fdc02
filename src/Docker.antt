-- ===== src/Docker.antt =====
-- src/docker_repo: the statistics of the running containers.
pub mod Statistics
pub mod Streams
