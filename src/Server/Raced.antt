-- ===== src/Server/Raced.antt =====
-- server.go: a `Close` that comes while `Start` is between the register id and the listeners, as the
-- signal handler of cmd/server/main.go can make it.
