-- ===== src/Platform.antt =====
-- What the program calls and this repository does not hold: libbase's files, NSS, the generated
-- protobuf classes. Each is a record of functions; laws that a theorem needs stand beside it.
pub mod Files
pub mod Crypto
pub mod Messages
pub mod SampleDisk
pub mod SampleCodec
