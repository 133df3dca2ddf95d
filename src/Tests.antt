-- ===== src/Tests.antt =====
-- The theorems at concrete inputs.
mod Tables
mod Machine
mod Instructions
mod Parts
mod Inheritance
mod Collector
mod Scanning
mod Threading
mod Expressions
mod Strings
mod Objects
