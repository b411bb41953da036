-- ===== src/DataHandling.antt =====
-- include/datahandlinglibs/models/DataHandlingModel.hpp and detail/DataHandlingModel.hxx: what
-- becomes of the payloads that come and of the time that is announced.
pub mod Consume
pub mod Deferred
pub mod Lifecycle
pub mod Setup
pub mod Ring
pub mod Timesync
