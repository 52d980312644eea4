-- ===== src/Vectorgen.antt =====
-- desktop/cmd/vectorgen/main.go: the generator of the test vectors of the protocol.
pub mod Frames
pub mod Targets
pub mod Decoding
pub mod Examples
