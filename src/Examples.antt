-- ===== src/Examples.antt =====
-- Concrete providers, codecs and stores, and runs of the definitions on them.
mod Trivial
mod Format
mod Setting
mod Run
mod Group
mod Session
mod Keys
mod Bytes
mod SessionFormat
mod Exchange
mod Pairwise
mod Ratcheting
mod Begin
mod Archive
mod Messages
mod Service
mod PreKeys
mod Bundle
