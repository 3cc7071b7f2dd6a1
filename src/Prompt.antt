-- ===== src/Prompt.antt =====
-- What is put before the prompt of a turn in web-client/overlay/client/src/lib, before it is sealed.
pub mod Inject
