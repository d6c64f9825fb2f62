-- ===== src/Checking/Update/Sent.antt =====
-- multipathd/main.c, `update_path_state`: what is sent to the device mapper.
