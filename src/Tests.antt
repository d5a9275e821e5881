-- ===== src/Tests.antt =====
-- The theorems at concrete inputs, and runs of the model that a reader can follow in the source.
mod World
mod Codec
mod Cli
mod Upload
mod Web
mod Crawler
mod Registry
mod Pack
mod Accounts
mod Manifest
mod Publishing
mod Guard
