-- ===== src/Tests/Admin.antt =====
-- rust-sync-proxy/src/admin.rs on small inputs.
use gemini_worker_go.Prelude.{
  ℕ, ◌≡◌, ◌≤◌, ◌⊎◌, ◌++◌, refl, true, false, List, [], ◌∷◌, some, Option,
}
use gemini_worker_go.Text.{
  Text, codes, text_eq, trim, trim_start_by, trim_end_by, is_whitespace, strip_prefix, split_once,
  utf8_len, one_of,
}
use gemini_worker_go.Admin.{
  AdminLogEntry, enabled, check_basic_auth, truncate_for_admin_log, boundary_of, str_prefix,
  take_id, push_locked, pop_excess, dedup_strings, dedup_from,
}
use gemini_worker_go.Admin.Log.{Event, arrives, enters, Recording, act, run}
use gemini_worker_go.Admin.Log.Newest.{History, history, Agrees, run-Agrees}
use gemini_worker_go.Admin.Auth.{IsAllowed, check_basic_auth-IsAllowed}
use gemini_worker_go.Admin.Truncate.{Cut, truncate_for_admin_log_cases}

abbrev entry : ℕ → AdminLogEntry
entry status = record {
  id = 0;
  created_at = [];
  method = codes "POST";
  path = [];
  query = [];
  remote_addr = [];
  is_stream = false;
  output_mode = [];
  status_code = status;
  duration_ms = 3;
  request_parse_ms = 1;
  request_image_prepare_ms = 0;
  request_image_materialize_ms = 0;
  request_image_fetch_work_ms = 0;
  request_image_store_work_ms = 0;
  request_encode_ms = 0;
  upstream_build_ms = 0;
  response_process_ms = 0;
  upload_ms = 0;
  finish_reason = [];
  request_raw = [];
  request_raw_images = [];
  request_raw_image_cache_hits = [];
  request_upstream = [];
  request_upstream_images = [];
  response_downstream = [];
  response_images = [];
  error_source = [];
  error_stage = [];
  error_kind = [];
  error_message = [];
  error_detail = [];
  upstream_status_code = 0;
  upstream_error_body = [];
}

abbrev empty_log : Recording
empty_log = record { buffer = record { next_id = 0; entries = [] }; waiting = [] }

abbrev no_history : History
no_history = record { last_id = 0; waiting = []; recorded = [] }

-- The second task gets the lock first.
abbrev overtaken : List Event
overtaken = arrives (entry 200) ∷ arrives (entry 500) ∷ enters 1 ∷ enters 0 ∷ enters 4 ∷ []

abbrev ids : List AdminLogEntry → List ℕ
ids [] = []
ids (e ∷ es) = e.id ∷ ids es

shown : ids (run overtaken empty_log).buffer.entries ≡ 1 ∷ 2 ∷ []
unfolding run act take_id push_locked pop_excess
shown = refl

run-Agrees_example : Agrees (run overtaken empty_log) (history overtaken no_history)
run-Agrees_example =
    run-Agrees overtaken empty_log no_history
      (record { same_id = refl; same_waiting = refl; newest = refl })

abbrev as_is : Text → Option Text
as_is text = some text

admitted : check_basic_auth as_is (codes "pw") (some (codes "Basic  me:pw ")) ≡ true
unfolding check_basic_auth enabled trim trim_start_by trim_end_by is_whitespace strip_prefix
    split_once text_eq
admitted = refl

check_basic_auth-IsAllowed_example : IsAllowed as_is (codes "pw") (some (codes "Basic  me:pw "))
check_basic_auth-IsAllowed_example =
    check_basic_auth-IsAllowed as_is (codes "pw") (some (codes "Basic  me:pw ")) admitted

-- The second character takes two bytes.
cut_short :
    truncate_for_admin_log (b'a' ∷ 0xe9 ∷ b'b' ∷ []) 2 ≡ codes "a" ++ codes "\n...[truncated]"
unfolding truncate_for_admin_log utf8_len boundary_of str_prefix
cut_short = refl

truncate_for_admin_log_cases_example :
    ((utf8_len (codes "abc") ≤ 2) × (truncate_for_admin_log (codes "abc") 2 ≡ codes "abc"))
    ⊎ ((cut : Cut 2 0 (codes "abc")) × (truncate_for_admin_log (codes "abc") 2
          ≡ cut.kept ++ codes "\n...[truncated]"))
truncate_for_admin_log_cases_example = truncate_for_admin_log_cases (codes "abc") 2

deduplicates :
    dedup_strings (codes "a" ∷ codes " " ∷ codes " a" ∷ codes "b" ∷ []) ≡ codes "a" ∷ codes "b" ∷ []
unfolding dedup_strings dedup_from trim trim_start_by trim_end_by is_whitespace one_of text_eq
deduplicates = refl
