-- ===== src/Tests.antt =====
-- The theorems at concrete inputs: what their hypotheses ask for can be had, and the code that they
-- speak of runs.
mod Hashes
mod Shards
mod Xorbs
mod Pkts
mod Stores
mod Metas
mod Authzs
mod Https
mod Uploads
mod ShardUploads
mod Filters
mod Gcs
mod Auths
mod Readers
mod Limits
