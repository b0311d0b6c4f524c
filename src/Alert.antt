-- ===== src/Alert.antt =====
-- alert: the protocol and the pure evaluation logic of alerts.
pub mod Model
pub mod Protocol
pub mod Validation
pub mod Evaluator
pub mod Service
