-- ===== src/Consumers.antt =====
-- backend/src/common/consumers/rabbitmq.consumer.ts: what is done with the events of the broker.
pub mod Patterns
pub mod Events
pub mod Delivery
pub mod Repeated
