-- ===== src/Http/Recorder.antt =====
-- responseRecorder of http/middleware.go. The ResponseWriter of net/http is the list of the calls that it
-- receives, in order.
use fortify.Base.{ℕ, Bool, true, false, if◌then◌else◌, List, [], ◌∷◌, ◌++◌}

-- http.Error is a call of package net/http with the writer.
pub data WriterCall : Type 0 where
  writes_header : ℕ → WriterCall
  writes_body : List ℕ → WriterCall
  http_error : ℕ → WriterCall

abbrev pub status_ok : ℕ
status_ok = 200

pub record ResponseRecorder : Type 0 where
  pub calls : List WriterCall
  pub status_code : ℕ
  pub written : Bool

abbrev pub new_recorder : ResponseRecorder
new_recorder = record { calls = []; status_code = status_ok; written = false }

unfoldable pub write_header : ℕ → ResponseRecorder → ResponseRecorder
write_header status rec = if rec.written then rec else record {
  status_code = status;
  written = true;
  calls = rec.calls ++ (writes_header status ∷ []);
}

unfoldable pub write : List ℕ → ResponseRecorder → ResponseRecorder
write b rec =
    let begun : ResponseRecorder = if rec.written then rec else record {
      status_code = status_ok;
      written = true;
      calls = rec.calls ++ (writes_header status_ok ∷ []);
    } in
    record begun { calls = begun.calls ++ (writes_body b ∷ []) }

-- What a handler does with its writer: WriteHeader and Write.
pub data Use : Type 0 where
  sets_status : ℕ → Use
  writes : List ℕ → Use

unfoldable pub serve : List Use → ResponseRecorder → ResponseRecorder
unfolding write_header write
serve [] rec = rec
serve (sets_status n ∷ uses) rec = serve uses (write_header n rec)
serve (writes b ∷ uses) rec = serve uses (write b rec)
