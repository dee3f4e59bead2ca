-- ===== src/Events.antt =====
-- Domain events: their envelope, the outbox that publishes them after the commit, the bus that delivers
-- them and the inbox of a consumer.
pub mod Envelope
pub mod Outbox
pub mod Bus
pub mod Inbox
pub mod Pipeline
