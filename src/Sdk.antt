-- ===== src/Sdk.antt =====
-- The tool SDK that the toolset vendors (go/toolsets/event-correlator/src/_sdk/samtoolsdk).
pub mod Outcome
pub mod Context
