-- ===== src/Common/Rc.antt =====
-- src/common/rc.hpp: the result codes and their texts.
use Prim.Native.String.{String}
use mathlib.Core.Bool.{Bool, true, false}

pub data Rc : Type 0 where
  internal_error syntax_error key_not_exist column_not_exist : Rc
  json_deserialization_error out_of_range page_is_deleted record_is_deleted : Rc
  db_open_table_error uninit table_already_existed table_not_existed : Rc
  fetch_page_error record_too_large ambiguous_column_name column_type_mismatch : Rc
  success : Rc

abbrev pub rc_success : Rc → Bool
rc_success success = true
rc_success _ = false

-- The static map of `rc2str` is built from a list in which the first entry for a key counts; a
-- key with no entry gives the empty view of `strs[rc]`.
unfoldable pub rc2str : Rc → String
rc2str internal_error = "Internal Error"
rc2str syntax_error = "Syntax error"
rc2str key_not_exist = "Key is not existed"
rc2str column_not_exist = "Column is not existed"
rc2str json_deserialization_error = "Json deserialization error"
rc2str out_of_range = "Out of range"
rc2str page_is_deleted = "Page has been deleted"
rc2str record_is_deleted = "Record has been deleted"
rc2str db_open_table_error = "Db open table error"
rc2str uninit = "Not init"
rc2str table_already_existed = "Table is already existed"
rc2str table_not_existed = "Table is not existed"
rc2str fetch_page_error = "Fetch page error"
rc2str record_too_large = "Record is too large"
rc2str ambiguous_column_name = "Ambiguous column name"
rc2str column_type_mismatch = "Column type mismatch"
rc2str success = ""
