-- ===== src/Tests/Blob.antt =====
-- rust-sync-proxy/src/blob_runtime.rs on small inputs.
use gemini_worker_go.Prelude.{ℕ, ◌≡◌, refl, true, false, [], ◌∷◌, ok, err, length, arith, inl}
use gemini_worker_go.Text.{codes}
use gemini_worker_go.Files.{written, cut, not_written}
use gemini_worker_go.Blob.{
  BlobRuntime, BlobRuntimeConfig, BlobHandle, inline, spilled, new, store_bytes, store_stream,
  remove, read_bytes,
}
use gemini_worker_go.Blob
use gemini_worker_go.Blob.Stream.{delivered, store_stream-eq-store_bytes}
use gemini_worker_go.Blob.Content.{read_bytes-store_bytes, read_bytes-store_bytes_ne}
use gemini_worker_go.Blob.Budget.{IsAccounted}
use gemini_worker_go.Blob.Budget.Run.{
  Reach, start, bytes_stored, was_removed, removed_again, Reach-IsAccounted,
}
use gemini_worker_go.Blob.Budget.Remove.{remove-remove}
use gemini_worker_go.Blob.Reserve.{
  Shared, wants, loaded, holding, Step, Steps, no_steps, and_step, exchanged, retried, IsExact,
  Steps-IsExact,
}

abbrev pub cfg : BlobRuntimeConfig
cfg = record {
  inline_max_bytes = 4;
  request_hot_budget_bytes = 8;
  global_hot_budget_bytes = 6;
  spill_dir = codes "/tmp";
}

abbrev rt : BlobRuntime
rt = record {
  cfg = cfg;
  next_id = 1;
  global_hot_bytes = 0;
  spill_count = 0;
  spill_bytes_total = 0;
  removed = [];
  files = [];
}

abbrev held_blob : BlobHandle
held_blob = record {
  id = 1;
  meta = record { mime_type = codes "image/png"; size_bytes = 3 };
  storage = inline (1 ∷ 2 ∷ 3 ∷ []);
}

abbrev filed_blob : BlobHandle
filed_blob = record {
  id = 1;
  meta = record { mime_type = codes "image/png"; size_bytes = 5 };
  storage = spilled (codes "/tmp/blob-1.bin");
}

small_is_inline : (store_bytes written (1 ∷ 2 ∷ 3 ∷ []) (codes "image/png") rt).0 ≡ ok held_blob
unfolding store_bytes
small_is_inline = refl

large_is_spilled :
    (store_bytes written (1 ∷ 2 ∷ 3 ∷ 4 ∷ 5 ∷ []) (codes "image/png") rt).0 ≡ ok filed_blob
unfolding store_bytes
large_is_spilled = refl

cut_write_fails :
    (store_bytes (cut 2) (1 ∷ 2 ∷ 3 ∷ 4 ∷ 5 ∷ []) (codes "image/png") rt).0 ≡ err not_written
unfolding store_bytes
cut_write_fails = refl

store_stream-eq-store_bytes_example :
    store_stream (delivered ((1 ∷ 2 ∷ []) ∷ (3 ∷ 4 ∷ 5 ∷ []) ∷ [])) written (codes "image/png") rt
    ≡ store_bytes written (1 ∷ 2 ∷ 3 ∷ 4 ∷ 5 ∷ []) (codes "image/png") rt
store_stream-eq-store_bytes_example =
    store_stream-eq-store_bytes ((1 ∷ 2 ∷ []) ∷ (3 ∷ 4 ∷ 5 ∷ []) ∷ []) (codes "image/png") rt tt

read_bytes-store_bytes_example :
    (read_bytes true filed_blob
        (store_bytes written (1 ∷ 2 ∷ 3 ∷ 4 ∷ 5 ∷ []) (codes "image/png") rt).1
      ≡ ok (1 ∷ 2 ∷ 3 ∷ 4 ∷ 5 ∷ []))
    × (filed_blob.meta.size_bytes ≡ length {A = ℕ} (1 ∷ 2 ∷ 3 ∷ 4 ∷ 5 ∷ []))
    × (filed_blob.meta.mime_type ≡ codes "image/png")
    × (filed_blob.id ≡ rt.next_id)
read_bytes-store_bytes_example =
    read_bytes-store_bytes written (1 ∷ 2 ∷ 3 ∷ 4 ∷ 5 ∷ []) (codes "image/png") rt filed_blob
      large_is_spilled

abbrev rt₂ : BlobRuntime
rt₂ = record {
  cfg = cfg;
  next_id = 2;
  global_hot_bytes = 0;
  spill_count = 1;
  spill_bytes_total = 5;
  removed = [];
  files = (codes "/tmp/blob-1.bin", 1 ∷ 2 ∷ 3 ∷ 4 ∷ 5 ∷ []) ∷ [];
}

own_file : codes "/tmp/blob-1.bin" ≡ Blob.spill_path cfg 1
unfolding Blob.spill_path
own_file = refl

read_bytes-store_bytes_ne_example :
    read_bytes true filed_blob (store_bytes (cut 1) (9 ∷ 8 ∷ 7 ∷ 6 ∷ 5 ∷ []) (codes "x") rt₂).1
    ≡ read_bytes true filed_blob rt₂
read_bytes-store_bytes_ne_example =
    read_bytes-store_bytes_ne (cut 1) true (9 ∷ 8 ∷ 7 ∷ 6 ∷ 5 ∷ []) (codes "x") rt₂ filed_blob
      own_file (omega arith)

abbrev second_blob : BlobHandle
second_blob = record {
  id = 2;
  meta = record { mime_type = codes "x"; size_bytes = 5 };
  storage = inline (9 ∷ []);
}

abbrev after_store : BlobRuntime
after_store = (store_bytes written (1 ∷ 2 ∷ 3 ∷ []) (codes "image/png") (new cfg [])).1

stored_once : Reach cfg [] after_store (held_blob ∷ []) []
unfolding store_bytes new
stored_once = bytes_stored written (1 ∷ 2 ∷ 3 ∷ []) (codes "image/png") (omega arith) start

abbrev after_removal : BlobRuntime
after_removal = (remove true held_blob after_store).1

-- The blob is removed twice.
removed_twice : Reach cfg [] (remove false held_blob after_removal).1 [] (held_blob ∷ [])
unfolding store_bytes new
removed_twice =
    removed_again false held_blob (inl refl) (was_removed true held_blob (inl refl) stored_once)

Reach-IsAccounted_example : IsAccounted (remove false held_blob after_removal).1 []
Reach-IsAccounted_example = Reach-IsAccounted (omega arith) removed_twice

accounted : IsAccounted after_store (held_blob ∷ [])
accounted = Reach-IsAccounted (omega arith) stored_once

remove-remove_example :
    remove false filed_blob (remove false filed_blob rt₂).1
    ≡ (ok tt, (remove false filed_blob rt₂).1)
remove-remove_example = remove-remove false false filed_blob rt₂

-- Two tasks load the counter before either exchanges it; one of them has to retry.
abbrev both_loaded : Shared
both_loaded = record { counter = 0; tasks = loaded 3 0 ∷ loaded 4 0 ∷ [] }

abbrev one_waits : Shared
one_waits = record { counter = 3; tasks = holding 3 ∷ wants 4 ∷ [] }

abbrev one_holds : Shared
one_holds = record { counter = 3; tasks = holding 3 ∷ loaded 4 0 ∷ [] }

first_wins : Step cfg both_loaded one_holds
unfolding Blob.reserve_target
first_wins = exchanged 0 3 0 3 refl refl refl refl

second_retries : Step cfg one_holds one_waits
unfolding Blob.reserve_target
second_retries = retried 1 4 0 4 refl refl (omega arith) refl

race : Steps cfg both_loaded one_waits
race = and_step (and_step no_steps first_wins) second_retries

Steps-IsExact_example : IsExact cfg one_waits
Steps-IsExact_example =
    Steps-IsExact cfg (omega arith) (record { exact = refl; within = omega arith }) race
