-- ===== src/Tests.antt =====
-- Runs of the definitions on concrete inputs, and the theorems at inputs that meet their hypotheses.
mod Engine
mod Pipeline
mod Messages
mod Memory
mod Pool
mod Files
mod Redis
mod Disk
mod Progress
mod Service
mod Crawler
mod Prometheus
