-- ===== src/Reminders/Book/Release.antt =====
-- What a client that cleans up leaves.
