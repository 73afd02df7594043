-- ===== src/Admin.antt =====
-- rust-sync-proxy/src/admin.rs: the log of the last requests, the counters, and who may read them. An
-- `i64` is held as its residue modulo 2^64.
pub mod Log
pub mod Auth
pub mod Truncate
use gemini_worker_go.Prelude.{
  ℕ, zero, suc, ◌+◌, ◌-◌, ◌*◌, ◌%◌, Bool, true, false, ◌&&◌, ◌||◌, not, Option, none, some, List,
  [], ◌∷◌, ◌++◌, Result, ok, err, length, leb, ltb, ◌==◌, if◌then◌else◌, and_then, u64_mod,
}
use gemini_worker_go.Text.{
  Text, codes, text_eq, is_empty, one_of, trim, strip_prefix, split_once, starts_with, utf8_len,
  utf8_width,
}
use gemini_worker_go.Files.{Bytes}
use gemini_worker_go.Json.{Value, as_str, as_array, value_get, items}

abbrev pub admin_log_capacity : ℕ
admin_log_capacity = 100

abbrev pub admin_max_body_bytes_per_entry : ℕ
admin_max_body_bytes_per_entry = 64 * 1024

pub record AdminLogEntry : Type 0 where
  pub id : ℕ
  pub created_at : Text
  pub method : Text
  pub path : Text
  pub query : Text
  pub remote_addr : Text
  pub is_stream : Bool
  pub output_mode : Text
  pub status_code : ℕ
  pub duration_ms : ℕ
  pub request_parse_ms : ℕ
  pub request_image_prepare_ms : ℕ
  pub request_image_materialize_ms : ℕ
  pub request_image_fetch_work_ms : ℕ
  pub request_image_store_work_ms : ℕ
  pub request_encode_ms : ℕ
  pub upstream_build_ms : ℕ
  pub response_process_ms : ℕ
  pub upload_ms : ℕ
  pub finish_reason : Text
  pub request_raw : Text
  pub request_raw_images : List Text
  pub request_raw_image_cache_hits : List Text
  pub request_upstream : Text
  pub request_upstream_images : List Text
  pub response_downstream : Text
  pub response_images : List Text
  pub error_source : Text
  pub error_stage : Text
  pub error_kind : Text
  pub error_message : Text
  pub error_detail : Text
  pub upstream_status_code : ℕ
  pub upstream_error_body : Text

pub record AdminStats : Type 0 where
  pub total_requests : ℕ
  pub error_requests : ℕ
  pub total_duration_ms : ℕ
  pub request_parse_ms : ℕ
  pub request_image_prepare_ms : ℕ
  pub request_image_materialize_ms : ℕ
  pub request_image_fetch_work_ms : ℕ
  pub request_image_store_work_ms : ℕ
  pub request_encode_ms : ℕ
  pub upstream_build_ms : ℕ
  pub response_process_ms : ℕ
  pub upload_ms : ℕ
  pub cache_hits : ℕ

pub record AdminLogBuffer : Type 0 where
  pub next_id : ℕ
  pub entries : List AdminLogEntry

-- `fetch_add`
abbrev pub plus : ℕ → ℕ → ℕ
plus a b = (a + b) % u64_mod

unfoldable pub apply_admin_stats : AdminStats → AdminLogEntry → AdminStats
apply_admin_stats stats entry = record stats {
  total_requests = plus stats.total_requests 1;
  error_requests =
      if leb 400 entry.status_code then plus stats.error_requests 1 else stats.error_requests;
  total_duration_ms = plus stats.total_duration_ms entry.duration_ms;
  request_parse_ms = plus stats.request_parse_ms entry.request_parse_ms;
  request_image_prepare_ms = plus stats.request_image_prepare_ms entry.request_image_prepare_ms;
  request_image_materialize_ms =
      plus stats.request_image_materialize_ms entry.request_image_materialize_ms;
  request_image_fetch_work_ms =
      plus stats.request_image_fetch_work_ms entry.request_image_fetch_work_ms;
  request_image_store_work_ms =
      plus stats.request_image_store_work_ms entry.request_image_store_work_ms;
  request_encode_ms = plus stats.request_encode_ms entry.request_encode_ms;
  upstream_build_ms = plus stats.upstream_build_ms entry.upstream_build_ms;
  response_process_ms = plus stats.response_process_ms entry.response_process_ms;
  upload_ms = plus stats.upload_ms entry.upload_ms;
}

-- The first half of `record`, before the lock: the entry takes its id.
unfoldable pub take_id : AdminLogEntry → AdminLogBuffer → AdminLogEntry × AdminLogBuffer
take_id entry buffer =
    (record entry { id = plus buffer.next_id 1 }, record buffer { next_id = plus buffer.next_id 1 })

abbrev pub pop_back : List AdminLogEntry → List AdminLogEntry
pop_back [] = []
pop_back (e ∷ []) = []
pop_back (e ∷ f ∷ es) = e ∷ pop_back (f ∷ es)

-- The `while` loop, with the number of entries as fuel.
unfoldable pub pop_excess : ℕ → List AdminLogEntry → List AdminLogEntry
pop_excess zero entries = entries
pop_excess (suc fuel) entries =
    if ltb admin_log_capacity (length entries) then pop_excess fuel (pop_back entries) else entries

-- The second half of `record`, under the lock.
unfoldable pub push_locked : AdminLogEntry → AdminLogBuffer → AdminLogBuffer
unfolding pop_excess
push_locked entry buffer = record buffer {
  entries = pop_excess (length (entry ∷ buffer.entries)) (entry ∷ buffer.entries);
}

abbrev pub snapshot_logs : AdminLogBuffer → List AdminLogEntry
snapshot_logs buffer = buffer.entries

unfoldable pub enabled : Text → Bool
unfolding trim
enabled password = not (is_empty (trim password))

abbrev pub matches_password : Text → Option (Text × Text) → Bool
matches_password password none = false
matches_password password (some (user, given)) = text_eq given password

abbrev pub decoded_matches : Text → Option Text → Bool
decoded_matches password none = false
decoded_matches password (some decoded) = matches_password password (split_once b':' decoded)

-- `header` is the header `authorization` where it is a string; `decode` is `STANDARD.decode` followed
-- by `String::from_utf8`.
unfoldable pub check_basic_auth : (Text → Option Text) → Text → Option Text → Bool
unfolding enabled strip_prefix trim split_once text_eq
check_basic_auth decode password header =
    if not (enabled password)
    then false
    else decoded_matches password (
        and_then (and_then header (λ raw. strip_prefix raw (codes "Basic ")))
          (λ encoded. decode (trim encoded)))

unfoldable pub dedup_from : List Text → List Text → List Text
unfolding trim one_of
dedup_from seen [] = []
dedup_from seen (s ∷ v) =
    let old = dedup_from seen v in
    let new = dedup_from (trim s ∷ seen) v in
    if is_empty (trim s) || one_of (trim s) seen then old else s ∷ new

unfoldable pub dedup_strings : List Text → List Text
unfolding dedup_from
dedup_strings v = dedup_from [] v

abbrev pub deduplicated : AdminLogEntry → AdminLogEntry
deduplicated entry = record entry {
  request_raw_images = dedup_strings entry.request_raw_images;
  request_raw_image_cache_hits = dedup_strings entry.request_raw_image_cache_hits;
  request_upstream_images = dedup_strings entry.request_upstream_images;
  response_images = dedup_strings entry.response_images;
}

-- The items of the response.
unfoldable pub admin_logs_response : List AdminLogEntry → List AdminLogEntry
unfolding dedup_strings
admin_logs_response [] = []
admin_logs_response (entry ∷ logs) = deduplicated entry ∷ admin_logs_response logs

abbrev first : List Value → Option Value
first [] = none
first (v ∷ vs) = some v

unfoldable pub extract_finish_reason : Value → Option Text
unfolding value_get
extract_finish_reason body =
    and_then (and_then (value_get (codes "candidates") body) as_array) (λ candidates.
      and_then (and_then (first (items candidates)) (value_get (codes "finishReason"))) as_str)

unfoldable pub is_image_url : Text → Bool
unfolding starts_with
is_image_url value =
    starts_with value (codes "http://")
    || starts_with value (codes "https://")
    || starts_with value (codes "/proxy/image")

-- The loop over `char_indices`, from a byte index on.
unfoldable pub boundary_of : ℕ → ℕ → ℕ → Text → ℕ
boundary_of max_bytes index boundary [] = boundary
boundary_of max_bytes index boundary (c ∷ s) =
    if ltb max_bytes index then boundary else boundary_of max_bytes (index + utf8_width c) index s

-- `&input[..boundary]`
unfoldable pub str_prefix : ℕ → Text → Text
str_prefix boundary [] = []
str_prefix boundary (c ∷ s) =
    if boundary == 0 then [] else c ∷ str_prefix (boundary - utf8_width c) s

unfoldable pub truncate_for_admin_log : Text → ℕ → Text
unfolding utf8_len boundary_of str_prefix
truncate_for_admin_log input max_bytes =
    if leb (utf8_len input) max_bytes
    then input
    else str_prefix (boundary_of max_bytes 0 0 input) input ++ codes "\n...[truncated]"
