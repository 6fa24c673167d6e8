-- ===== src/Sync/Mixed.antt =====
-- Two uploads of the same file at the same time: `UploadFile` keeps no one else from the rows of the file
-- that it is storing.
use mathlib.Core.List.{flatten}
use dropbox_lite.Prelude.{
  ℕ, ◌+◌, ◌≡◌, ◌≢◌, refl, sym, ap, subst, ◌∙◌, [], ◌∷◌, ◌++◌, Option, none, some, Bool, true, false,
  Bytes, Str, All, length, arith, append-nil, inl, inr,
}
use dropbox_lite.Prelude.Int.{pos}
use dropbox_lite.Hash.{Ssl, sha256}
use dropbox_lite.Storage.{Env, Storage, db_of, store_chunk, finalize_file}
use dropbox_lite.Storage.Paths.{get_temp_file_path}
use dropbox_lite.Storage.Store.{Works, NoCollision}
use dropbox_lite.Storage.Upload.{Uploaded, store_chunk-Listed, inserted-Listed}
use dropbox_lite.Storage.Overwrite.{store_chunk-again}
use dropbox_lite.Storage.Finalize.{Finalized, finalize_file-Uploaded}
use dropbox_lite.Sync.{UploadChunkRequest, UploadChunkResponse, Progress, start}
use dropbox_lite.Sync.Requests.{named, finish-some}
use dropbox_lite.Sync.Upload.{request}
use dropbox_lite.Sync.Handler.{Handler, reading, answered, handle, handle-stored, handle-end}
use dropbox_lite.Sync.Handler
use dropbox_lite.Sync.Jobs.{Job, run_both, messages, IsSound}
use dropbox_lite.Sync.Reads.{Knows, note_request-Knows}
use dropbox_lite.Sync.Turns.{five_turns}

-- Two chunks of a file.
abbrev pub two_chunks : Str → Str → Env → Bytes → Env → Bytes → Env → Job
two_chunks client path e0 p0 e1 p1 last = record {
  client = client;
  path = path;
  sent = (e0, p0) ∷ (e1, p1) ∷ [];
  last = last;
}

module _ (ssl : Ssl) (P : Bytes → Type 0) (root client path : Str) where
  abbrev store : ℕ → Env × Bytes → Storage → Bool × Storage
  store i c s = store_chunk c.0 client path (pos i) c.1 (sha256 ssl c.1) s

  -- The first of one, both of another, the second of the one.
  stored_between :
      (a0 a1 b0 b1 : Env × Bytes) (s : Storage)
      → NoCollision ssl P
      → All (λ (c : Env × Bytes). Works c.0) (a0 ∷ a1 ∷ b0 ∷ b1 ∷ [])
      → All (λ (c : Env × Bytes). P c.1) (a0 ∷ a1 ∷ b0 ∷ b1 ∷ [])
      → Uploaded ssl P root client path [] s
      → let r1 = store 0 a0 s in
        let r2 = store 0 b0 r1.1 in
        let r3 = store 1 b1 r2.1 in
        let r4 = store 1 a1 r3.1 in
        (r1.0 ≡ true)
        × (r2.0 ≡ true)
        × (r3.0 ≡ true)
        × (r4.0 ≡ true)
        × Uploaded ssl P root client path (b0.1 ∷ a1.1 ∷ []) r4.1
  stored_between a0 a1 b0 b1 s sep (wa0, (wa1, (wb0, (wb1, _)))) (ha0, (ha1, (hb0, (hb1, _)))) v =
      let (ok1, v1, e1) =
        store_chunk-Listed ssl P a0.0 root client path (pos 0) [] a0.1 s sep wa0 tt ha0 v.rooted
          v.addressed tt v.recorded.settled
          (inserted-Listed ssl P path [] a0.1 (db_of s client) v.recorded) in
      let s1 = (store 0 a0 s).1 in
      let (ok2, v2) =
        store_chunk-again ssl P b0.0 root client path [] b0.1 a0.1 s1 (db_of s client) sep wb0 tt
          hb0 v1.rooted v1.addressed tt v.recorded e1 in
      let s2 = (store 0 b0 s1).1 in
      let (ok3, v3, e3) =
        store_chunk-Listed ssl P b1.0 root client path (pos 1) (b0.1 ∷ []) b1.1 s2 sep wb1 (hb0, tt)
          hb1 v2.rooted v2.addressed v2.present v2.recorded.settled
          (inserted-Listed ssl P path (b0.1 ∷ []) b1.1 (db_of s2 client) v2.recorded) in
      let s3 = (store 1 b1 s2).1 in
      let (ok4, v4) =
        store_chunk-again ssl P a1.0 root client path (b0.1 ∷ []) a1.1 b1.1 s3 (db_of s2 client) sep
          wa1 (hb0, tt) ha1 v3.rooted v3.addressed (v3.present.0, tt) v2.recorded e3 in
      (ok1, ok2, ok3, ok4, v4)

  abbrev pub job : Env × Bytes → Env × Bytes → Env → Job
  job c0 c1 last = two_chunks client path c0.0 c0.1 c1.0 c1.1 last

  abbrev after : ℕ → Handler
  after n = reading (named client path (pos 2) n)

  abbrev message_of : ℕ → ℕ → Env × Bytes → Option UploadChunkRequest
  message_of n o c = some (request ssl P client path (pos 2) n o c.1)

  -- A chunk that is stored.
  read_stored :
      (c0 c1 : Env × Bytes) (last : Env) (n o : ℕ) (c : Env × Bytes) (p : Progress) (s : Storage)
      → IsSound ssl P root (job c0 c1 last)
      → Knows ssl P root (job c0 c1 last) n p
      → (store n c s).0 ≡ true
      → handle ssl c.0 (message_of n o c) (reading p) s ≡ (after (n + 1), (store n c s).1)
  read_stored c0 c1 last n o c p s sound knows ok =
      handle-stored ssl c.0 (request ssl P client path (pos 2) n o c.1) p
        (named client path (pos 2) n) s (store n c s).1
        (note_request-Knows ssl P root (job c0 c1 last) n o c.1 p sound knows)
        (λ i. (ok i, (store n c s).1))

  abbrev pub both_stored : UploadChunkResponse
  both_stored = record { success = true; message = []; chunks_received = pos 2 }

  -- The client's copy and its record are of these contents.
  abbrev pub Copy : Bytes → Storage → Type 0
  Copy q t = Finalized ssl P (get_temp_file_path root client path) client path q (true, t)

  -- The end of the one's stream.
  ended :
      (a0 a1 b0 : Env × Bytes) (last : Env) (s : Storage)
      → IsSound ssl P root (job a0 a1 last)
      → b0.1 ≢ []
      → Uploaded ssl P root client path (b0.1 ∷ a1.1 ∷ []) s
      → let t = (finalize_file ssl last client path (pos 2) s).1 in
        (handle ssl last none (after 2) s ≡ (answered both_stored, t)) × Copy (b0.1 ++ a1.1) t
  ended a0 a1 b0 last s sound full v =
      let done =
        finalize_file-Uploaded ssl P last root client path (b0.1 ∷ a1.1 ∷ []) s sound.ends v
          (full, (sound.full.1.0, tt)) (omega arith) in
      let joined : flatten (b0.1 ∷ a1.1 ∷ []) ≡ b0.1 ++ a1.1 =
        unfold flatten in ap (λ (q : Bytes). b0.1 ++ q) (append-nil a1.1) in
      let t = (finalize_file ssl last client path (pos 2) s).1 in
      (
        handle-end ssl last (named client path (pos 2) 2) s
            ∙ ap (Handler.over ssl)
                (finish-some ssl last (named client path (pos 2) 2) s done.0 (omega arith)),
        subst (λ (q : Bytes). Copy q t) joined (refl, done.1, done.2),
      )

  -- Two uploads of one file, of two chunks each, at the same time: the first chunk of the one is followed
  -- by both of the other, and these by the second of the one and its end. Nothing fails, yet the copy that
  -- the first call answers for begins with the other's chunk: it has been put together from both.
  pub mixed_uploads :
      (a0 a1 b0 b1 : Env × Bytes) (last last' : Env) (s : Storage)
      → NoCollision ssl P
      → IsSound ssl P root (job a0 a1 last)
      → IsSound ssl P root (job b0 b1 last')
      → Uploaded ssl P root client path [] s
      → let (h, k, s') =
          run_both ssl
            (true ∷ false ∷ false ∷ true ∷ true ∷ [])
            (messages ssl P root (job a0 a1 last))
            (messages ssl P root (job b0 b1 last'))
            (reading start)
            (reading start)
            s in
        (h ≡ answered both_stored) × Copy (b0.1 ++ a1.1) s'
  mixed_uploads a0 a1 b0 b1 last last' s sep sa sb v =
      let (wa0, (wa1, _)) = sa.works in
      let (wb0, (wb1, _)) = sb.works in
      let (ha0, (ha1, _)) = sa.known in
      let (hb0, (hb1, _)) = sb.known in
      let (ok1, ok2, ok3, ok4, v4) =
        stored_between a0 a1 b0 b1 s sep (wa0, (wa1, (wb0, (wb1, tt))))
          (ha0, (ha1, (hb0, (hb1, tt)))) v in
      let s1 = (store 0 a0 s).1 in
      let s2 = (store 0 b0 s1).1 in
      let s3 = (store 1 b1 s2).1 in
      let s4 = (store 1 a1 s3).1 in
      let (run5, copied) = ended a0 a1 b0 last s4 sa sb.full.0 v4 in
      let s5 = (finalize_file ssl last client path (pos 2) s4).1 in
      let run1 = read_stored a0 a1 last 0 0 a0 start s sa (inr (refl, refl)) ok1 in
      let run2 = read_stored b0 b1 last' 0 0 b0 start s1 sb (inr (refl, refl)) ok2 in
      let run3 =
        read_stored b0 b1 last' 1 (0 + length b0.1) b1 (named client path (pos 2) 1) s2 sb
          (inl refl) ok3 in
      let run4 =
        read_stored a0 a1 last 1 (0 + length a0.1) a1 (named client path (pos 2) 1) s3 sa (inl refl)
          ok4 in
      let ran =
        five_turns ssl (a0.0, message_of 0 0 a0) (a1.0, message_of 1 (0 + length a0.1) a1)
          (last, none) (b0.0, message_of 0 0 b0) (b1.0, message_of 1 (0 + length b0.1) b1)
          (last', none) (reading start) (after 1) (after 2) (answered both_stored) (reading start)
          (after 1) (after 2) s s1 s2 s3 s4 s5 run1 run2 run3 run4 run5 in
      subst
        (λ (t : Handler × Handler × Storage).
          (t.0 ≡ answered both_stored) × Copy (b0.1 ++ a1.1) t.2)
        (sym ran) (refl, copied)
