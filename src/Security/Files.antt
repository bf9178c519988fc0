-- ===== src/Security/Files.antt =====
-- crates/kobako-runtime/src/vfs: errors, kinds of files, modes and masks. A set of bits in a byte is
-- the record of its bits, so that `contains` of one flag is a field, and `|` sets fields.
use kobako.Common.{ℕ, Bool, false, List}

pub data FilesystemError : Type 0 where
  not_found already_exists not_a_directory is_a_directory directory_not_empty : FilesystemError
  permission_denied read_only_filesystem invalid_input unsupported storage_full : FilesystemError
  file_too_large crosses_devices escape deadlock filesystem_loop not_permitted : FilesystemError
  bad_descriptor resource_busy illegal_sequence interrupted would_block : FilesystemError
  too_many_open_files invalid_filename out_of_memory not_a_socket value_too_large : FilesystemError
  not_seekable no_such_device stale_network_file_handle : FilesystemError
  other : List ℕ → FilesystemError

pub data FileType : Type 0 where
  reg_file dir symlink fifo sock blkdev chrdev unknown : FileType

pub data Access : Type 0 where
  read read_write : Access

pub record FMode : Type 0 where
  pub read : Bool
  pub write : Bool
  pub lseek : Bool
  pub pread : Bool
  pub pwrite : Bool
  pub stream : Bool
  pub created : Bool
  pub path : Bool

pub record Mask : Type 0 where
  pub may_exec : Bool
  pub may_write : Bool
  pub may_read : Bool
  pub may_open : Bool
  pub may_append : Bool

-- `Mask::NONE`
abbrev pub none_asked : Mask
none_asked = record {
  may_exec = false;
  may_write = false;
  may_read = false;
  may_open = false;
  may_append = false;
}
