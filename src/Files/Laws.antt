-- ===== src/Files/Laws.antt =====
-- Reading back what was written, and what other paths keep.
use gemini_worker_go.Prelude.{◌≡◌, refl, none, some, [], ◌∷◌, ◌++◌, arith, if◌then◌else◌}
use gemini_worker_go.Text.{Text, text_eq}
use gemini_worker_go.Text.Laws.{text_eq_iff, text_eq_refl}
use gemini_worker_go.Files.{Bytes, Files, read_file, write_file, append_file, remove_file}

pub read-write_file :
    (p q : Text) (b : Bytes) (fs : Files)
    → read_file q (write_file p b fs) ≡ (if text_eq p q then some b else read_file q fs)
unfolding read_file write_file
read-write_file p q b [] = refl
read-write_file p q b ((r, c) ∷ fs) =
    ground (arith, read-write_file p q b fs, text_eq_iff p q, text_eq_iff r p, text_eq_iff r q)

pub read-write_file_self :
    (p : Text) (b : Bytes) (fs : Files) → read_file p (write_file p b fs) ≡ some b
read-write_file_self p b fs = simp (read-write_file, text_eq_refl)

pub append-write_file :
    (p : Text) (a b : Bytes) (fs : Files)
    → append_file p b (write_file p a fs) ≡ write_file p (a ++ b) fs
unfolding append_file write_file
append-write_file p a b [] = simp text_eq_refl
append-write_file p a b ((r, c) ∷ fs) = ground (arith, append-write_file p a b fs)

pub read-remove_file :
    (p q : Text) (fs : Files)
    → read_file q (remove_file p fs) ≡ (if text_eq p q then none else read_file q fs)
unfolding read_file remove_file
read-remove_file p q [] = ground arith
read-remove_file p q ((r, c) ∷ fs) =
    ground (arith, read-remove_file p q fs, text_eq_iff p q, text_eq_iff r p, text_eq_iff r q)
