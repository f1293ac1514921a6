-- ===== src/Durable.antt =====
-- From the dirty pages of a file to the file system: journal_file_data and fill_tagblk of the secure daemon
-- (oxbow/secure_daemon/src/fs/journal.c), and the checkpoint of the storage server
-- (oxbow/devfs/src/journal.c), with the data blocks in the log behind the descriptor block.
pub mod Blocks
pub mod Content
