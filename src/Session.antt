-- ===== src/Session.antt =====
-- linux/src/ydyun_session.py: the validator of a session descriptor, a JSON object that the vendor's
-- client has received.
pub mod Json
pub mod Fields
pub mod Descriptor
pub mod Secrets
pub mod Config
pub mod Main
