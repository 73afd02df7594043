-- ===== src/Admin/Log/Newest.antt =====
-- rust-sync-proxy/src/admin.rs, `AdminState::record`: the buffer as the newest part of a log that
-- forgets nothing.
use gemini_worker_go.Prelude.{
  ℕ, zero, suc, ◌-◌, ◌≡◌, ◌≤◌, ◌<◌, refl, sym, ap, ◌∙◌, Bool-cases, inl, inr, List, [], ◌∷◌, ◌++◌,
  length, ltb, ltb→lt, take, take-length, Option, none, some, arith,
}
use gemini_worker_go.Admin.{
  AdminLogEntry, AdminLogBuffer, admin_log_capacity, take_id, pop_back, pop_excess, push_locked,
  snapshot_logs, plus,
}
use gemini_worker_go.Admin.Log.{Event, arrives, enters, Recording, act, run, take_out, entered}

-- The log that forgets nothing, newest first.
pub record History : Type 0 where
  pub last_id : ℕ
  pub waiting : List AdminLogEntry
  pub recorded : List AdminLogEntry

abbrev pub entered_history : History → Option (AdminLogEntry × List AdminLogEntry) → History
entered_history h none = h
entered_history h (some (entry, others)) = record h {
  waiting = others;
  recorded = entry ∷ h.recorded;
}

abbrev pub next : Event → History → History
next (arrives entry) h = record h {
  last_id = plus h.last_id 1;
  waiting = h.waiting ++ (record entry { id = plus h.last_id 1 }) ∷ [];
}
next (enters n) h = entered_history h (take_out n h.waiting)

abbrev pub history : List Event → History → History
history [] h = h
history (event ∷ events) h = history events (next event h)

length-pop_back : (es : List AdminLogEntry) → length (pop_back es) ≡ length es - 1
length-pop_back [] = omega arith
length-pop_back (e ∷ []) = omega arith
length-pop_back (e ∷ f ∷ es) = omega (arith, length-pop_back (f ∷ es))

take-pop_back : (n : ℕ) (es : List AdminLogEntry) → n < length es → take n (pop_back es) ≡ take n es
take-pop_back zero es h = refl
take-pop_back (suc n) [] h = absurd (omega (arith, h))
take-pop_back (suc n) (e ∷ []) h = absurd (omega (arith, h))
take-pop_back (suc n) (e ∷ f ∷ es) h = rw (take-pop_back n (f ∷ es) (omega (arith, h)))

pop_excess-take :
    (fuel : ℕ) (es : List AdminLogEntry)
    → length es ≤ fuel
    → pop_excess fuel es ≡ take admin_log_capacity es
unfolding pop_excess
pop_excess-take zero es h = sym (take-length admin_log_capacity es (omega (arith, h)))
pop_excess-take (suc fuel) es h = elim (Bool-cases (ltb admin_log_capacity (length es))) [
  | inl full ↦ rw full (
      pop_excess-take fuel (pop_back es) (omega (arith, h, length-pop_back es))
      ∙ take-pop_back admin_log_capacity es (ltb→lt _ _ full))
  | inr room ↦ rw room (sym (take-length admin_log_capacity es (ground (arith, room))))
]

take-take : (n m : ℕ) (es : List AdminLogEntry) → n ≤ m → take n (take m es) ≡ take n es
take-take zero m es h = refl
take-take (suc n) zero es h = absurd (omega (arith, h))
take-take (suc n) (suc m) [] h = refl
take-take (suc n) (suc m) (e ∷ es) h = rw (take-take n m es (omega (arith, h)))

-- The buffer holds the newest entries of the history, and the two agree on ids and tasks.
pub record Agrees (r : Recording) (h : History) : Type 0 where
  pub same_id : r.buffer.next_id ≡ h.last_id
  pub same_waiting : r.waiting ≡ h.waiting
  pub newest : snapshot_logs r.buffer ≡ take admin_log_capacity h.recorded

push_locked-take :
    (entry : AdminLogEntry) (buffer : AdminLogBuffer) (recorded : List AdminLogEntry)
    → buffer.entries ≡ take admin_log_capacity recorded
    → snapshot_logs (push_locked entry buffer) ≡ take admin_log_capacity (entry ∷ recorded)
unfolding push_locked
push_locked-take entry buffer recorded same =
    pop_excess-take (length (entry ∷ buffer.entries)) (entry ∷ buffer.entries) (omega arith)
    ∙ ap (λ es. take admin_log_capacity (entry ∷ es)) same
    ∙ ap (λ es. entry ∷ es) (take-take 99 admin_log_capacity recorded (omega arith))

entered-Agrees :
    (r : Recording) (h : History) (o : Option (AdminLogEntry × List AdminLogEntry))
    → Agrees r h
    → Agrees (entered r o) (entered_history h o)
unfolding push_locked
entered-Agrees r h none a = a
entered-Agrees r h (some (entry, others)) a = record {
  same_id = a.same_id;
  same_waiting = refl;
  newest = push_locked-take entry r.buffer h.recorded a.newest;
}

entered-Agrees_same :
    (r : Recording) (h : History) (o : Option (AdminLogEntry × List AdminLogEntry))
    {o' : Option (AdminLogEntry × List AdminLogEntry)}
    → o ≡ o'
    → Agrees r h
    → Agrees (entered r o) (entered_history h o')
entered-Agrees_same r h o same a = rw (sym same) (entered-Agrees r h o a)

act-Agrees :
    (event : Event) (r : Recording) (h : History) → Agrees r h → Agrees (act event r) (next event h)
unfolding act take_id
act-Agrees (arrives entry) r h a = record {
  same_id = rw a.same_id;
  same_waiting = rw (a.same_id, a.same_waiting);
  newest = a.newest;
}
act-Agrees (enters n) r h a =
    entered-Agrees_same r h (take_out n r.waiting) (ap (take_out n) a.same_waiting) a

-- However the tasks take their ids and get the lock, the log that is shown is the newest hundred
-- entries of all that were recorded, if it was so at first.
pub run-Agrees :
    (events : List Event) (r : Recording) (h : History)
    → Agrees r h
    → Agrees (run events r) (history events h)
unfolding run
run-Agrees [] r h a = a
run-Agrees (event ∷ events) r h a =
    run-Agrees events (act event r) (next event h) (act-Agrees event r h a)
