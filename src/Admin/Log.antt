-- ===== src/Admin/Log.antt =====
-- rust-sync-proxy/src/admin.rs, `AdminState::record` by many tasks: one that has taken its id waits for
-- the lock, and those that wait get it in any order.
pub mod Newest
use gemini_worker_go.Prelude.{ℕ, zero, suc, Option, none, some, List, [], ◌∷◌, ◌++◌}
use gemini_worker_go.Admin.{AdminLogEntry, AdminLogBuffer, take_id, push_locked}

pub data Event : Type 0 where
  arrives : AdminLogEntry → Event
  -- The waiting task of this number gets the lock.
  enters : ℕ → Event

pub record Recording : Type 0 where
  pub buffer : AdminLogBuffer
  pub waiting : List AdminLogEntry

abbrev pub with_first {ℓ} : {A : Type ℓ} → A → Option (A × List A) → Option (A × List A)
with_first x none = none
with_first x (some (found, rest)) = some (found, x ∷ rest)

abbrev pub take_out {ℓ} : {A : Type ℓ} → ℕ → List A → Option (A × List A)
take_out n [] = none
take_out zero (x ∷ xs) = some (x, xs)
take_out (suc n) (x ∷ xs) = with_first x (take_out n xs)

abbrev pub arrived : List AdminLogEntry → AdminLogEntry × AdminLogBuffer → Recording
arrived waiting (entry, buffer) = record { buffer = buffer; waiting = waiting ++ entry ∷ [] }

abbrev pub entered : Recording → Option (AdminLogEntry × List AdminLogEntry) → Recording
entered r none = r
entered r (some (entry, others)) = record { buffer = push_locked entry r.buffer; waiting = others }

unfoldable pub act : Event → Recording → Recording
unfolding take_id push_locked
act (arrives entry) r = arrived r.waiting (take_id entry r.buffer)
act (enters n) r = entered r (take_out n r.waiting)

unfoldable pub run : List Event → Recording → Recording
unfolding act
run [] r = r
run (event ∷ events) r = run events (act event r)
