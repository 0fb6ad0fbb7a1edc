-- ===== src/Mtproto.antt =====
-- The MTProto plane of internal/mtproto: sessions that hold a bot's own Telegram connection.
pub mod Session
