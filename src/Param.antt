-- ===== src/Param.antt =====
-- eigerApp/src/eigerParam.cpp: the parameters of the detector, their types and limits, and how values
-- go between the detector, the driver and its asyn parameters.
pub mod Outside
pub mod Types
pub mod Json
pub mod Text
pub mod Get
pub mod Fetch
pub mod FetchAll
pub mod Put
pub mod Create
pub mod Clamp
pub mod Enums
pub mod Guards
pub mod Names
pub mod Tests
pub mod FetchBool
