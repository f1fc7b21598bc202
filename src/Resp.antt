-- ===== src/Resp.antt =====
-- The wire format: DataParser.ts and the writers of utilities.ts.
pub mod Encode
pub mod Parse
pub mod RoundTrip
pub mod Rounds
pub mod Framing
