-- ===== src/Tests.antt =====
-- The theorems at concrete inputs, with small stand-ins for what is not TypeScript.
mod Doubles
mod TransportRuns
mod ExtensionRuns
mod SessionRuns
mod SignalingRuns
mod ServerRuns
mod CommandRuns
