-- ===== src/Outbox.antt =====
-- packages/platform/src/outbox: events that are published after the transaction that wrote them.
pub mod Relay
