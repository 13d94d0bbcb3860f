-- ===== src/Pending/Scenarios.antt =====
-- Two requests with one id of the app server, of which the first is resolved.
use codex_runtime.Base.{
  ℕ, ◌≡◌, refl, Text, text_eq, ascii, true, none, some, List, [], ◌∷◌, lookup, insert, remove,
  is_some, if◌then◌else◌, arith, strconv_uint, digits_from, number_from, number-strconv_uint,
  length,
}
use codex_runtime.Domain.{no_display, tool_user_input}
use codex_runtime.Pending.Records.{
  Record, request_id_key, pending_id, bytes_trim_space, trim_start, trim_end, is_space,
}
use codex_runtime.Pending.Manager.{
  Manager, new_manager, add, added_record, get, mark_resolved, index_id, remove_active_id,
  without_first, active_by_server_request_id, active_by_resolved_server_request_id, active_by_index,
  first_active,
}
use codex_runtime.Pending.Histories.{
  Change, adds, resolves, change, changes, IsConsistent, changes-IsConsistent, server_id,
}
use codex_runtime.Pending.Lookups.{
  Fits, active_by_server_request_id-Fits, active_by_server_request_id-found, by_indexes,
  active_by_resolved_server_request_id-by_indexes, get-add,
}

abbrev request : Record ℕ
request = record {
  method = ascii "item/tool/requestUserInput";
  app_server_request_id = ascii "r";
  jsonrpc_id = ascii " 7";
  active = true;
  pending = record {
    pending_request_id = [];
    task_id = ascii "task";
    pending_type = tool_user_input;
    created_at_unix_ms = 5;
    thread_id = [];
    turn_id = [];
    item_id = [];
    display = no_display;
  };
  approval_options = [];
  permission_grants = [];
  tool_questions = [];
  mcp_sensitive_fields = [];
}

abbrev history : List (Change ℕ)
history =
    adds request ∷ adds request ∷ resolves (ascii "pending-1") ∷ resolves (ascii "pending-1") ∷ []

abbrev manager : Manager ℕ
manager = changes new_manager history

manager-IsConsistent : IsConsistent 4 manager
manager-IsConsistent = changes-IsConsistent history (omega arith)

changes-IsConsistent_example : IsConsistent (length history) (changes new_manager history)
changes-IsConsistent_example = changes-IsConsistent history (omega arith)

abbrev second : Record ℕ
second = record request {
  pending = record request.pending { pending_request_id = ascii "pending-2" };
}

second-found : active_by_server_request_id (ascii "r") manager ≡ some second
unfolding changes change new_manager add added_record mark_resolved pending_id strconv_uint
    digits_from request_id_key bytes_trim_space trim_start trim_end is_space index_id
    remove_active_id without_first active_by_server_request_id active_by_index first_active lookup
    insert remove text_eq
second-found = refl

second-stands : lookup (ascii "pending-2") manager.requests ≡ some second
unfolding changes change new_manager add added_record mark_resolved pending_id strconv_uint
    digits_from request_id_key bytes_trim_space trim_start trim_end is_space index_id
    remove_active_id without_first active_by_server_request_id active_by_index first_active lookup
    insert remove text_eq
second-stands = refl

active_by_server_request_id-Fits_example : Fits server_id (ascii "r") manager.requests second
active_by_server_request_id-Fits_example =
    active_by_server_request_id-Fits (ascii "r") manager second manager-IsConsistent second-found

active_by_server_request_id-found_example :
    is_some (active_by_server_request_id (ascii "r") manager) ≡ true
active_by_server_request_id-found_example =
    active_by_server_request_id-found manager (ascii "pending-2") second manager-IsConsistent
      second-stands refl refl

abbrev unchanged : Text → Text
unchanged s = s

active_by_resolved_server_request_id-by_indexes_example :
    active_by_resolved_server_request_id unchanged (ascii "7") manager
    ≡ by_indexes unchanged (ascii "7") manager
active_by_resolved_server_request_id-by_indexes_example =
    active_by_resolved_server_request_id-by_indexes unchanged (ascii "7") manager
      manager-IsConsistent

get-add_example :
    (get (add request manager).1 manager ≡ none)
    × (get (add request manager).1 (add request manager).0
        ≡ some (added_record (add request manager).1 request))
    × (get (ascii "pending-2") (add request manager).0 ≡ (
        if text_eq (add request manager).1 (ascii "pending-2")
        then some (added_record (add request manager).1 request)
        else get (ascii "pending-2") manager))
get-add_example = get-add request manager (ascii "pending-2") manager-IsConsistent (omega arith)

number-strconv_uint_example : number_from 0 (strconv_uint 9007199254740993) ≡ 9007199254740993
number-strconv_uint_example = number-strconv_uint 9007199254740993 (omega arith)
