-- ===== src/Sync/Upload.antt =====
-- `UploadFile` end to end: the requests of a client that sends the pieces of a file in order, each
-- under its own hash. Each request and the end of the call have their own environment.
use mathlib.Core.List.{flatten}
use dropbox_lite.Prelude.{
  ℕ, suc, ◌+◌, ◌<◌, ◌^◌, ◌≡◌, ◌≢◌, refl, sym, ap, subst, ◌∙◌, List, [], ◌∷◌, ◌++◌, some, true,
  false, Bytes, Str, All, All-append, length, length-append, str_eq, arith, append-nil,
  append_assoc,
}
use dropbox_lite.Prelude.Int.{ℤ, pos, to_int32}
use dropbox_lite.Hash.{Ssl, sha256}
use dropbox_lite.Chunker.Pieces.{pieces}
use dropbox_lite.Chunker.Partition.{InLimits, lengths, pieces-InLimits, flatten-pieces}
use dropbox_lite.Metadata.{FileRecord, done, get_file}
use dropbox_lite.Storage.Records.{finalize_file-time}
use dropbox_lite.Storage.{Env, Storage, db_of, store_chunk, finalize_file}
use dropbox_lite.Storage.Paths.{get_temp_file_path}
use dropbox_lite.Storage.Store.{Works, NoCollision}
use dropbox_lite.Storage.Upload.{Uploaded, store_chunk-Uploaded}
use dropbox_lite.Storage.Finalize.{Finalized, finalize_file-Uploaded}
use dropbox_lite.Sync.{
  UploadChunkRequest, Progress, start, note_request, receive, finish, upload_file,
}
use dropbox_lite.Sync.Requests.{named, contents, receive-cons, length-contents, finish-some}

module _ (ssl : Ssl) (P : Bytes → Type 0) where
  abbrev pub request : Str → Str → ℤ → ℕ → ℕ → Bytes → UploadChunkRequest
  request client path total i o p = record {
    client_id = client;
    file_path = path;
    chunk = record {
      index = pos i;
      offset = pos o;
      size = to_int32 (length p);
      hash = sha256 ssl p;
      bytes = p;
    };
    total_chunks = total;
  }

  -- The requests for these contents, from the index `i` and the offset `o` on.
  abbrev pub requests : Str → Str → ℤ → ℕ → ℕ → List (Env × Bytes) → List (Env × UploadChunkRequest)
  requests client path total i o [] = []
  requests client path total i o (c ∷ cs) =
      (c.0, request client path total i o c.1)
      ∷ requests client path total (suc i) (o + length c.1) cs

  -- Once the file is known, or with the first request, the stream is stored to its end, from the index `n` on
  -- and after `k` chunks of this call.
  pub receive-Uploaded :
      (root client path : Str) (total : ℤ) (o n k : ℕ) (cs : List (Env × Bytes)) (qs : List Bytes)
      (p : Progress) (s : Storage)
      → NoCollision ssl P
      → All (λ c. Works c.0) cs
      → All P qs
      → All P (contents cs)
      → str_eq client [] ≡ false
      → Uploaded ssl P root client path qs s
      → length qs ≡ n
      → p ≡ named client path total k
      → (s' : Storage) × (receive (requests client path total n o cs) p s
          ≡ (some (named client path total (k + length cs)), s'))
        × Uploaded ssl P root client path (qs ++ contents cs) s'
  receive-Uploaded root client path total o n k [] qs p s sep w hq hc ne v en ep = (
    s,
    unfold receive in
        ap (λ (t : Progress). (some t, s)) (ep ∙ ap (named client path total) (omega arith)),
    subst (λ t. Uploaded ssl P root client path t s) (sym (append-nil qs)) v,
  )
  receive-Uploaded root client path total o n k ((env, d) ∷ cs) qs p s sep w hq hc ne v en ep =
      let (stored, v1) = store_chunk-Uploaded ssl P env root client path qs d s sep w.0 hq hc.0 v in
      let s1 = (store_chunk env client path (pos (length qs)) d (sha256 ssl d) s).1 in
      let (s2, went, v2) =
        receive-Uploaded root client path total (o + length d) (suc n) (k + 1) cs (qs ++ d ∷ [])
          (named client path total (k + 1)) s1 sep w.1 (All-append P qs (d ∷ []) hq (hc.0, tt)) hc.1
          ne v1 (omega (arith, length-append {0} qs (d ∷ []))) refl in
      (
        s2,
        receive-cons env (request client path total n o d)
              (requests client path total (suc n) (o + length d) cs) p (named client path total k) s
              s1
              (ap (note_request (request client path total n o d)) ep
                ∙ (unfold note_request in rw ne refl))
              (subst (λ j. store_chunk env client path (pos j) d (sha256 ssl d) s ≡ (true, s1)) en
                (λ i. (stored i, s1)))
            ∙ (went ∙ ap (λ j. (some (named client path total j), s2)) (omega arith)),
        subst (λ t. Uploaded ssl P root client path t s2) (append_assoc qs (d ∷ []) (contents cs))
            v2,
      )

  -- The first request names the file.
  pub receive-first :
      (root client path : Str) (total : ℤ) (i o : ℕ) (c : Env × Bytes) (cs : List (Env × Bytes))
      (s : Storage)
      → str_eq client [] ≡ false
      → receive (requests client path total i o (c ∷ cs)) start s
        ≡ receive (requests client path total i o (c ∷ cs)) (named client path total 0) s
  unfolding receive note_request str_eq start
  receive-first root client path total i o c cs s ne = rw ne refl

  -- An upload of a file's contents, in order, each under its own hash, none empty and no more than an
  -- `int32_t` counts, to a server where nothing fails and the file has no chunks yet: it succeeds, all chunks are counted, the server's
  -- copy is the contents joined, and its record has their hash and length and the time of the call.
  pub upload_file-Finalized :
      (root client path : Str) (c : Env × Bytes) (cs : List (Env × Bytes)) (last : Env)
      (s : Storage)
      → NoCollision ssl P
      → All (λ e. Works e.0) (c ∷ cs)
      → Works last
      → All P (contents (c ∷ cs))
      → All (λ q. q ≢ []) (contents (c ∷ cs))
      → length (contents (c ∷ cs)) < 2 ^ 31
      → str_eq client [] ≡ false
      → Uploaded ssl P root client path [] s
      → (s' : Storage) × (upload_file ssl
            (requests client path (pos (length (contents (c ∷ cs)))) 0 0 (c ∷ cs))
            last
            s
          ≡ (record { success = true; message = []; chunks_received = pos (length (c ∷ cs)) }, s'))
        × ((f : FileRecord)
            → get_file done path (db_of s' client) ≡ some f
            → f.modified_time ≡ last.now)
        × Finalized ssl P
            (get_temp_file_path root client path)
            client
            path
            (flatten (contents (c ∷ cs)))
            (true, s')
  unfolding upload_file
  upload_file-Finalized root client path c cs last s sep w wl hp full few ne v =
      let n = length (contents (c ∷ cs)) in
      let (s1, went, v1) =
        receive-Uploaded root client path (pos n) 0 0 0 (c ∷ cs) [] (named client path (pos n) 0) s
          sep w tt hp ne v refl refl in
      let finalized =
        finalize_file-Uploaded ssl P last root client path (contents (c ∷ cs)) s1 wl v1 full few in
      let zero_first : 0 + length (c ∷ cs) ≡ length (c ∷ cs) = omega arith in
      (
        (finalize_file ssl last client path (pos n) s1).1,
        ap (finish ssl last) (
              receive-first root client path (pos n) 0 0 c cs s ne
              ∙ (went ∙ ap (λ k. (some (named client path (pos n) k), s1)) zero_first))
            ∙ finish-some ssl last (named client path (pos n) (length (c ∷ cs))) s1 finalized.0
                (omega (arith, few, length-contents (c ∷ cs))),
        λ f. finalize_file-time ssl last client path (pos n) s1 f wl.records finalized.0,
        (refl, finalized.1, finalized.2),
      )

-- A list of sizes within the limits has no 0.
InLimits-nonempty : (ps : List Bytes) → InLimits (lengths ps) → All (λ p. p ≢ []) ps
InLimits-nonempty [] h = tt
InLimits-nonempty (p ∷ []) h = (λ e. absurd (omega (arith, ap length e, h.0)), tt)
InLimits-nonempty (p ∷ q ∷ ps) h =
    (λ e. absurd (omega (arith, ap length e, h.0)), InLimits-nonempty (q ∷ ps) h.2)

-- The file that a client cuts into chunks and uploads is, byte for byte, the file that the server puts
-- together, and its record has the SHA-256 and the length of the original. The buffer is not empty,
-- each piece is sent in order under its own hash, nothing fails, the pieces are no more than an `int32_t`
-- counts and no two contents have a hash in common
-- (`P` holds of them and of all that is stored), and the file has no chunks on the server yet.
pub upload_file_roundtrip :
    (ssl : Ssl) (P : Bytes → Type 0) (root client path : Str) (bytes : Bytes) (c : Env × Bytes)
    (cs : List (Env × Bytes)) (last : Env) (s : Storage)
    → NoCollision ssl P
    → contents (c ∷ cs) ≡ pieces bytes
    → All (λ e. Works e.0) (c ∷ cs)
    → Works last
    → All P (pieces bytes)
    → length (pieces bytes) < 2 ^ 31
    → str_eq client [] ≡ false
    → Uploaded ssl P root client path [] s
    → (s' : Storage) × (upload_file ssl
          (requests ssl P client path (pos (length (pieces bytes))) 0 0 (c ∷ cs))
          last
          s
        ≡ (record { success = true; message = []; chunks_received = pos (length (c ∷ cs)) }, s'))
      × Finalized ssl P (get_temp_file_path root client path) client path bytes (true, s')
upload_file_roundtrip ssl P root client path bytes c cs last s sep cut w wl hp few ne v =
    let (s', e, timed, finalized) =
      upload_file-Finalized ssl P root client path c cs last s sep w wl (subst (All P) (sym cut) hp)
        (subst (All (λ q. q ≢ [])) (sym cut)
          (InLimits-nonempty (pieces bytes) (pieces-InLimits bytes)))
        (subst (λ t. length t < 2 ^ 31) (sym cut) few) ne v in
    (
      s',
      subst
          (λ t.
            upload_file ssl (requests ssl P client path (pos (length t)) 0 0 (c ∷ cs)) last s ≡ (
              record { success = true; message = []; chunks_received = pos (length (c ∷ cs)) },
              s',
            ))
          cut e,
      subst (λ t. Finalized ssl P (get_temp_file_path root client path) client path t (true, s'))
          (ap flatten cut ∙ flatten-pieces bytes) finalized,
    )
