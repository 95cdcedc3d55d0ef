-- ===== src/Examples.antt =====
-- Runs on concrete inputs, and each result of the development at one of them.
mod Server
mod Requests
mod Shell
mod Table
mod Cluster
mod Proxy
mod Sort
mod Locks
mod Selector
mod Whole
mod Pipes
mod Exchanges
mod Passing
mod Starts
mod Signals
mod Forks
mod Ipc
