-- ===== src/FileDoc.antt =====
-- platform/filedoc/filedoc.go: the replacement of a file by writeFile, whose calls can each fail.
-- The backup and the temporary file are not part of the model; the file that is replaced is.
use llamarig.Common.{◌≡◌, Bool, true, false, Option, none, some, ◌++◌, if◌then◌else◌}
use llamarig.Common.Text.{Text, codes}
use llamarig.Common.Results.{Result, ok, err}

-- The calls of `writeBackup` and `writeReplacement`, in their order.
pub data WriteCall : Type 0 where
  stat_source read_source write_backup sync_backup : WriteCall
  create_temp write_temp chmod_temp sync_temp close_temp rename_temp sync_dir : WriteCall

-- The call that fails, and its error.
pub record WriteFault : Type 0 where
  pub call : WriteCall
  pub error : Text

-- What is put in front of the error.
unfoldable pub fault_prefix : WriteCall → Text
fault_prefix stat_source = codes ""
fault_prefix read_source = codes "read backup source: "
fault_prefix write_backup = codes "write backup: "
fault_prefix sync_backup = codes "sync backup: "
fault_prefix create_temp = codes "create temp file: "
fault_prefix write_temp = codes "write temp file: "
fault_prefix chmod_temp = codes "chmod temp file: "
fault_prefix sync_temp = codes "sync temp file: "
fault_prefix close_temp = codes "close temp file: "
fault_prefix rename_temp = codes "replace file: "
fault_prefix sync_dir = codes "sync directory: "

-- The directory is synchronised behind the rename.
unfoldable pub is_behind_rename : WriteCall → Bool
is_behind_rename sync_dir = true
is_behind_rename _ = false

unfoldable pub fault_text : WriteFault → Text
unfolding fault_prefix
fault_text w = fault_prefix w.call ++ w.error

-- `writeFile` of `new` over `old`, with the call that fails, if one does.
unfoldable pub write_file : {F : Type 0} → Option WriteFault → F → F → Result Text (Unit {0}) × F
write_file none new old = (ok tt, new)
write_file (some w) new old = (err (fault_text w), if is_behind_rename w.call then new else old)

-- No call fails behind the rename.
abbrev pub FailsBefore : Option WriteFault → Type 0
FailsBefore none = Unit
FailsBefore (some w) = is_behind_rename w.call ≡ false
