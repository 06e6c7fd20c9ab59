-- ===== src/Examples.antt =====
-- Runs of the theorems at concrete inputs.
mod Blobs
mod Drawing
mod Shards
mod Prepared
mod Routing
mod Restarts
mod Asking
mod Serving
mod Pushing
mod Polling
mod Producing
mod Tailing
