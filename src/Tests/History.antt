-- ===== src/Tests/History.antt =====
-- A server with a history, what it tells its clients, and several threads in one call of the storage.
use mathlib.Core.List.{flatten}
use dropbox_lite.Prelude.{
  sum_over, ◌≡◌, inl, inr, refl, [], ◌∷◌, List, some, true, arith, codes, str_eq, Str, Bytes,
  length, ◌≤◌, ◌+◌, ◌-◌, ◌/◌, ◌⊎◌, ◌*◌,
}
use dropbox_lite.Prelude.Int.{pos}
use dropbox_lite.Prelude.Dict.{get, put, has}
use dropbox_lite.Chunker.{k_max_chunk_size, chunk_data}
use dropbox_lite.Metadata.{
  FileRecord, done, c_str, get_file, close, get_file_chunks, chunks_of, order_rows, mark_deleted,
  find_file,
}
use dropbox_lite.Metadata
use dropbox_lite.Delta.{compute_delta}
use dropbox_lite.Hash.{sha256}
use dropbox_lite.Delta.Edit.{hashes_of, compute_delta_bounded}
use dropbox_lite.Storage.{
  Storage, db_of, get_client_db, delete_file, list_files, is_open, on_db, has_chunk, get_chunk,
}
use dropbox_lite.Storage.Restart.{restart, service, create, initialize, close_all}
use dropbox_lite.Storage.Upload.{Uploaded}
use dropbox_lite.Storage.Finalize.{IsRecordOf, Finalized}
use dropbox_lite.Storage.Paths.{get_temp_file_path}
use dropbox_lite.Sync.Parts.{Part, requests_of}
use dropbox_lite.Sync.Unordered.{Untouched, upload_file_unordered}
use mathlib.Core.List.Permᴰ
use dropbox_lite.Storage.Racing.{
  testing, absent, opened, past, Reachable, begun, stepped, test, make, write, started, with_chunk,
  World, Step, is_stored,
}
use dropbox_lite.Storage.Racing.Progress.{ahead, racing_ends}
use dropbox_lite.Sync.{compute_changes, find_local, upload_file, sync}
use dropbox_lite.Sync.Upload.{requests}
use dropbox_lite.Sync.Calls.{
  Call, remove, restarted, synchronise, serve, serve_all, fresh, serve_all-IsSettled,
}
use dropbox_lite.Sync.Told.{about, told, sync-told}
use dropbox_lite.Sync.Announced.{announced, upload_announced}
use dropbox_lite.Bench.Delta.{measure, modify_file}
use dropbox_lite.Bench.Transfer.{measure-modify_file}
use dropbox_lite.Bench.Stored.{Sent as Piece}
use dropbox_lite.Tests.{toy}
use dropbox_lite.Tests.Deltas.{stats}
use dropbox_lite.Tests.Server.{good, good-Works, one, two, Sent, Sent-NoCollision}
use dropbox_lite.Tests.Service.{mine}

-- A deletion, an end of the server, and a synchronisation.
abbrev history : List Call
history =
    remove good (codes "me") (codes "z") ∷ restarted ∷ synchronise good (codes "me") [] (pos 0) ∷ []

told_example :
    about
      (c_str (codes "a"))
      (sync good
        (codes "me")
        (mine ∷ [])
        (pos 0)
        (serve_all toy history (fresh (codes "r")))).0.changes
    ≡ told
        (c_str (codes "a"))
        (find_local (c_str (codes "a")) (mine ∷ []))
        (pos 0)
        (get_file done (codes "a") (db_of (serve_all toy history (fresh (codes "r"))) (codes "me")))
told_example =
    sync-told good (codes "me") (codes "a") (mine ∷ []) (pos 0)
      (serve_all toy history (fresh (codes "r"))) good-Works
      (serve_all-IsSettled toy history (codes "r") (codes "me"))

nothing_after :
    Uploaded toy Sent
      (codes "r")
      (codes "me")
      (codes "a")
      []
      (serve_all toy history (fresh (codes "r")))
unfolding serve_all serve sync list_files delete_file get_client_db is_open on_db restart service
    create initialize close_all close get put db_of get_file_chunks chunks_of order_rows
    Metadata.initialize Metadata.delete_file mark_deleted compute_changes str_eq
nothing_after = record {
  rooted = refl;
  addressed = λ h d long e. cc;
  present = tt;
  recorded = record { listed = refl; before = tt; settled = refl };
}

announced_example :
    let (r, s) =
      upload_file toy
        (requests toy Sent (codes "me") (codes "a") (pos 2) 0 0 ((good, one) ∷ (good, two) ∷ []))
        good
        (serve_all toy history (fresh (codes "r"))) in
    (r.success ≡ true)
    × ((f : FileRecord) × (get_file done (codes "a") (db_of s (codes "me")) ≡ some f)
        × IsRecordOf toy Sent (codes "a") (flatten (one ∷ two ∷ [])) f
        × (f.modified_time ≡ good.now))
    × (about (c_str (codes "a")) (sync good (codes "me") (mine ∷ []) (pos 0) s).0.changes
        ≡ announced
            (c_str (codes "a"))
            (find_local (c_str (codes "a")) (mine ∷ []))
            (pos 0)
            (c_str (sha256 toy (flatten (one ∷ two ∷ []))))
            good.now)
announced_example =
    upload_announced toy Sent history (codes "r") (codes "me") (codes "a") (good, one)
      ((good, two) ∷ []) good good (mine ∷ []) (pos 0) Sent-NoCollision
      (good-Works, (good-Works, tt)) good-Works good-Works (inl refl, (inr refl, tt))
      (λ e. cc, (λ e. cc, tt)) (omega arith) (unfold str_eq in refl) nothing_after

bounded_example :
    (compute_delta toy stats
      (some (1 ∷ 2 ∷ 9 ∷ []))
      (hashes_of (chunk_data toy (1 ∷ 2 ∷ 3 ∷ 4 ∷ [])).0)).0.bytes_to_transfer
    ≤ 1 + k_max_chunk_size
bounded_example = compute_delta_bounded toy stats (1 ∷ 2 ∷ []) (3 ∷ 4 ∷ []) (9 ∷ [])

modified_example :
    let m = measure toy stats (some (1 ∷ 2 ∷ 3 ∷ [])) (some (modify_file 500 (1 ∷ 2 ∷ 3 ∷ []))) in
    let d =
      (compute_delta toy stats
        (some (modify_file 500 (1 ∷ 2 ∷ 3 ∷ [])))
        (hashes_of (chunk_data toy (1 ∷ 2 ∷ 3 ∷ [])).0)).0 in
    (m.new_chunks ≡ length d.new_chunks)
    × (m.new_bytes ≡ d.bytes_to_transfer)
    × (m.new_bytes ≤ 3 - 3 / 2 + k_max_chunk_size)
modified_example = measure-modify_file toy stats stats 500 (1 ∷ 2 ∷ 3 ∷ [])

abbrev piece : Bytes → Piece
piece d = record { env = good; client = codes "me"; path = codes "a"; index = pos 0; content = d }

abbrev early : Part
early = record { env = good; index = 1; offset = 2; content = two }

abbrev late : Part
late = record { env = good; index = 0; offset = 0; content = one }

untouched : Untouched toy Sent (codes "r") (codes "me") (codes "a") (fresh (codes "r"))
unfolding db_of get chunks_of
untouched = record { rooted = refl; addressed = λ h d long e. cc; no_rows = refl; settled = refl }

unordered_example :
    (s' : Storage) × (upload_file toy
        (requests_of toy Sent (codes "me") (codes "a") (pos 2) (early ∷ late ∷ []))
        good
        (fresh (codes "r"))
      ≡ (record { success = true; message = []; chunks_received = pos 2 }, s'))
    × Finalized toy Sent
        (get_temp_file_path (codes "r") (codes "me") (codes "a"))
        (codes "me")
        (codes "a")
        (flatten (one ∷ two ∷ []))
        (true, s')
unordered_example =
    upload_file_unordered toy Sent (codes "r") (codes "me") (codes "a") early (late ∷ [])
      (late ∷ early ∷ []) good (fresh (codes "r")) Sent-NoCollision (good-Works, (good-Works, tt))
      good-Works (Permᴰ.swap refl refl) ((omega arith, tt), (tt, tt)) (inl refl, (inr refl, tt))
      (λ e. cc, (λ e. cc, tt)) (omega arith) (unfold str_eq in refl) untouched

abbrev hash : Str
hash = codes "abc"

-- The file as it is made, written, made again and written again.
abbrev emptied : Storage → Storage
emptied = with_chunk hash []

abbrev filled : Storage → Storage
filled = with_chunk hash one

abbrev none_yet : Storage
none_yet = fresh (codes "r")

-- Both threads find no file; the one opens it after the other has written it.
two_threads :
    Reachable one hash
      (started none_yet (testing ∷ testing ∷ []))
      6
      (started (filled (emptied (filled (emptied none_yet)))) (past true ∷ past true ∷ []))
unfolding has_chunk has
two_threads =
    let made = emptied none_yet in
    let again = emptied (filled made) in
    let w0 = started none_yet (testing ∷ testing ∷ []) in
    let w1 = started none_yet (absent ∷ testing ∷ []) in
    let w2 = started none_yet (absent ∷ absent ∷ []) in
    let w3 = started made (opened ∷ absent ∷ []) in
    let w4 = started (filled made) (past true ∷ absent ∷ []) in
    let w5 = started again (past true ∷ opened ∷ []) in
    let w6 = started (filled again) (past true ∷ past true ∷ []) in
    let r1 : Reachable one hash w0 1 w1 = stepped 0 w0 w1 begun (test w0 [] (testing ∷ []) refl) in
    let r2 : Reachable one hash w0 2 w2 = stepped 1 w1 w2 r1 (test w1 (absent ∷ []) [] refl) in
    let r3 : Reachable one hash w0 3 w3 = stepped 2 w2 w3 r2 (make w2 [] (absent ∷ []) refl) in
    let r4 : Reachable one hash w0 4 w4 = stepped 3 w3 w4 r3 (write w3 [] (absent ∷ []) refl) in
    let r5 : Reachable one hash w0 5 w5 = stepped 4 w4 w5 r4 (make w4 (past true ∷ []) [] refl) in
    stepped 5 w5 w6 r5 (write w5 (past true ∷ []) [] refl)

racing_example :
    (6 ≤ 2 * 3)
    × (((v : World) × Step one hash
            (started (filled (emptied (filled (emptied none_yet)))) (past true ∷ past true ∷ []))
            v)
        ⊎ ((sum_over ahead (past true ∷ past true ∷ []) ≡ 0)
            × ((get_chunk hash (filled (emptied (filled (emptied none_yet)))) ≡ one)
                ⊎ (sum_over is_stored (past true ∷ past true ∷ []) ≡ 0))))
unfolding has_chunk has
racing_example =
    racing_ends one hash none_yet 2 6
      (started (filled (emptied (filled (emptied none_yet)))) (past true ∷ past true ∷ []))
      (inl refl) two_threads
