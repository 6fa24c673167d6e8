-- ===== src/Tests/Threads.antt =====
-- What several threads do: uploads, chunks, the rate limiter; and a restart.
use mathlib.Core.List.{flatten}
use dropbox_lite.Prelude.{
  ℕ, ◌+◌, ◌-◌, ◌*◌, ◌/◌, ◌^◌, ◌≤◌, ◌≡◌, refl, List, [], ◌∷◌, ◌++◌, Bool, true, false, take, arith,
  codes, str_eq, inl, inr,
}
use dropbox_lite.Prelude.Int.{pos}
use dropbox_lite.Prelude.Dict.{get, has, put}
use dropbox_lite.Hash.{sha256}
use dropbox_lite.Metadata.{c_str, get_file_chunks, chunks_of, order_rows}
use dropbox_lite.Storage.{
  Storage, db_of, has_chunk, get_chunk, write_chunk, assemble, store_chunk, list_files,
  get_file_metadata,
}
use dropbox_lite.Storage.Upload.{Uploaded, store_chunk-Uploaded}
use dropbox_lite.Storage.Writing.{open_chunk, close_chunk, chunk_torn}
use dropbox_lite.Storage.Restart.{restart}
use dropbox_lite.Storage.Finalize.{Finalized}
use dropbox_lite.Storage.Paths.{get_temp_file_path}
use dropbox_lite.Sync.Upload.{requests}
use dropbox_lite.Sync.Resume.{upload_file_resumed}
use dropbox_lite.Sync.{start, upload_file}
use dropbox_lite.Sync.Handler.{reading, answered}
use dropbox_lite.Sync.Jobs.{Job, run_both, messages, IsSound, IsDone}
use dropbox_lite.Sync.Interleaved.{interleaved_uploads}
use dropbox_lite.Sync.Mixed.{job, Copy, mixed_uploads}
use dropbox_lite.RateLimiter.{second, millisecond}
use dropbox_lite.RateLimiter.Threads.{
  trying, asleep, served, World, called, Reachable, begun, stepped, call, started, threads_bounded,
}
use dropbox_lite.RateLimiter.Race.{acquire_race}
use dropbox_lite.Tests.{toy}
use dropbox_lite.Tests.Server.{
  good, good-Works, empty_server, one, two, Sent, Sent-NoCollision, nothing_yet,
}

abbrev first : Job
first = record { client = codes "me"; path = codes "a"; sent = (good, one) ∷ []; last = good }

abbrev other : Job
other = record { client = codes "me"; path = codes "b"; sent = (good, two) ∷ []; last = good }

first-IsSound : IsSound toy Sent (codes "r") first
first-IsSound = record {
  works = (good-Works, tt);
  ends = good-Works;
  known = (inl refl, tt);
  full = (λ e. cc, tt);
  some_content = λ e. cc;
  few = omega arith;
  client_named = unfold str_eq in refl;
  one_component = (omega arith, (omega arith, tt));
}

other-IsSound : IsSound toy Sent (codes "r") other
other-IsSound = record {
  works = (good-Works, tt);
  ends = good-Works;
  known = (inr refl, tt);
  full = (λ e. cc, tt);
  some_content = λ e. cc;
  few = omega arith;
  client_named = unfold str_eq in refl;
  one_component = (omega arith, (omega arith, tt));
}

nothing_other : Uploaded toy Sent (codes "r") (codes "me") (codes "b") [] empty_server
unfolding get db_of get_file_chunks chunks_of order_rows
nothing_other = record {
  rooted = refl;
  addressed = λ h d long e. cc;
  present = tt;
  recorded = record { listed = refl; before = tt; settled = refl };
}

abbrev turns : List Bool
turns = true ∷ false ∷ false ∷ true ∷ []

abbrev there : Job
there = job toy Sent (codes "r") (codes "me") (codes "a") (good, one) (good, two) good

abbrev back : Job
back = job toy Sent (codes "r") (codes "me") (codes "a") (good, two) (good, one) good

there-IsSound : IsSound toy Sent (codes "r") there
there-IsSound = record {
  works = (good-Works, (good-Works, tt));
  ends = good-Works;
  known = (inl refl, (inr refl, tt));
  full = (λ e. cc, (λ e. cc, tt));
  some_content = λ e. cc;
  few = omega arith;
  client_named = unfold str_eq in refl;
  one_component = (omega arith, (omega arith, tt));
}

back-IsSound : IsSound toy Sent (codes "r") back
back-IsSound = record {
  works = (good-Works, (good-Works, tt));
  ends = good-Works;
  known = (inr refl, (inl refl, tt));
  full = (λ e. cc, (λ e. cc, tt));
  some_content = λ e. cc;
  few = omega arith;
  client_named = unfold str_eq in refl;
  one_component = (omega arith, (omega arith, tt));
}

mixed_example :
    let (h, k, s) =
      run_both toy
        (true ∷ false ∷ false ∷ true ∷ true ∷ [])
        (messages toy Sent (codes "r") there)
        (messages toy Sent (codes "r") back)
        (reading start)
        (reading start)
        empty_server in
    (h ≡ answered (record { success = true; message = []; chunks_received = pos 2 }))
    × Copy toy Sent (codes "r") (codes "me") (codes "a") (two ++ two) s
mixed_example =
    mixed_uploads toy Sent (codes "r") (codes "me") (codes "a") (good, one) (good, two) (good, two)
      (good, one) good good empty_server Sent-NoCollision there-IsSound back-IsSound nothing_yet

interleaved_example :
    let (h, k, s) =
      run_both toy turns
        (messages toy Sent (codes "r") first)
        (messages toy Sent (codes "r") other)
        (reading start)
        (reading start)
        empty_server in
    IsDone toy Sent (codes "r") first h s × IsDone toy Sent (codes "r") other k s
interleaved_example =
    interleaved_uploads toy Sent (codes "r") turns first other empty_server Sent-NoCollision
      first-IsSound other-IsSound (unfold str_eq c_str in refl) (omega arith) (omega arith)
      nothing_yet nothing_other

torn_example :
    let (w, s1) = open_chunk good (codes "abc") empty_server in
    let (ok, s2) = close_chunk 1 one (codes "abc") w s1 in
    (write_chunk good two (codes "abc") s1 ≡ (true, s1))
    × (get_chunk (codes "abc") s1 ≡ [])
    × ((assemble
          (codes "t")
          (codes "abc" ∷ [])
          (record s1 { files = put s1.files (codes "t") [] })).0
        ≡ false)
    × (ok ≡ true)
    × (get_chunk (codes "abc") s2 ≡ take 1 one)
    × (write_chunk good two (codes "abc") s2 ≡ (true, s2))
torn_example =
    chunk_torn 1 good good one two (codes "abc") (codes "t") [] empty_server
      (unfold has_chunk has in refl) refl

abbrev half_way : Storage
half_way = (store_chunk good (codes "me") (codes "a") (pos 0) one (sha256 toy one) empty_server).1

half_way-Uploaded : Uploaded toy Sent (codes "r") (codes "me") (codes "a") (one ∷ []) half_way
half_way-Uploaded =
    (store_chunk-Uploaded toy Sent good (codes "r") (codes "me") (codes "a") [] one empty_server
      Sent-NoCollision good-Works tt (inl refl) nothing_yet).1

resumed_example :
    ((list_files good (codes "me") (restart half_way)).0
      ≡ (list_files good (codes "me") half_way).0)
    × ((get_file_metadata good (codes "me") (codes "b") (restart half_way)).0
        ≡ (get_file_metadata good (codes "me") (codes "b") half_way).0)
    × ((s' : Storage) × (upload_file toy
            (requests toy Sent (codes "me") (codes "a") (pos 2) 1 2 ((good, two) ∷ []))
            good
            (restart half_way)
          ≡ (record { success = true; message = []; chunks_received = pos 1 }, s'))
        × Finalized toy Sent
            (get_temp_file_path (codes "r") (codes "me") (codes "a"))
            (codes "me")
            (codes "a")
            (flatten (one ∷ two ∷ []))
            (true, s'))
resumed_example =
    upload_file_resumed toy Sent (codes "r") (codes "me") (codes "a") (codes "b") (one ∷ []) 2
      (good, two) [] good good half_way Sent-NoCollision (good-Works, tt) good-Works good-Works
      (inl refl, tt) (inr refl, tt) (λ e. cc, (λ e. cc, tt)) (omega arith) (unfold str_eq in refl)
      half_way-Uploaded

abbrev one_thread : World
one_thread = started 1000 1000 0 (trying 400 ∷ [])

abbrev one_call : World
one_call = called one_thread [] [] 400

threads_example :
    one_call.given * second ≤ one_call.limiter.burst_size * second + (one_call.now - 0) * 1000
threads_example =
    threads_bounded 1000 1000 0 (trying 400 ∷ []) one_call
      (stepped one_thread one_call begun (call one_thread [] [] 400 refl))

race_example :
    (w : World) × (until : ℕ) × Reachable
      (started 5000 5000 0 (trying 5000 ∷ trying 10 ∷ trying 1 ∷ []))
      w
    × (w.threads ≡ served 5000 ∷ asleep 10 until ∷ served 1 ∷ [])
    × (w.now + (2 ^ 64 + 10 + 1 - 5000) * 1000 / 5000 * millisecond ≤ until)
race_example = acquire_race 5000 10 (omega arith) (omega arith) (omega arith) (omega arith)
