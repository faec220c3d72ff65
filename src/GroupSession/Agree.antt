-- ===== src/GroupSession/Agree.antt =====
-- A sender's new session and a receiver that was told of it.
