-- ===== src/Samples.antt =====
-- Concrete libraries, which show that what `External` assumes can be met, for the tests.
pub mod SampleHex
pub mod SampleJson
pub mod SampleRcgen
pub mod SampleHost
pub mod SampleHttp
pub mod SampleJwt
pub mod SampleUuid
pub mod SampleRustls
