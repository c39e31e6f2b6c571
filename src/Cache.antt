-- ===== src/Cache.antt =====
-- pkg/cache: the configuration cache. Resource.antt and Snapshot.antt hold the data of
-- resource.go and snapshot.go; Simple.antt is the snapshot cache of simple.go with the status
-- records of status.go. The other modules below prove what they show.
pub mod Resource
pub mod Snapshot
pub mod Channels
pub mod Status
pub mod Simple
