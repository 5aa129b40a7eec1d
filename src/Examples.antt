-- ===== src/Examples.antt =====
-- Concrete inputs: two small captures, a small ruleset and a runtime whose floats are whole numbers.
mod Runtime
mod Collector
mod Diff
mod Noise
mod Report
mod Server
mod Command
mod Proxy
mod Service
mod Program
mod Live
mod Answers
mod Comparing
mod Safety
