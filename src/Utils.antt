-- ===== src/Utils.antt =====
-- include/datahandlinglibs/utils: copies into a buffer, the generator of error bits, and the rate
-- limiter.
pub mod BufferCopy
pub mod ErrorBits
pub mod FileSource
pub mod RateLimiter
