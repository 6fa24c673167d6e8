-- ===== src/Sync/Requests.antt =====
-- The steps of `UploadFile`, one request and the end.
use dropbox_lite.Prelude.{
  ℕ, suc, ◌+◌, ◌<◌, ◌^◌, ◌%◌, ◌≡◌, refl, ap, List, [], ◌∷◌, map, some, true, Bytes, Str, length,
  arith,
}
use dropbox_lite.Prelude.Int.{ℤ, pos, to_int32}
use dropbox_lite.Hash.{Ssl}
use dropbox_lite.Storage.{Env, Storage, store_chunk, finalize_file}
use dropbox_lite.Sync.{UploadChunkRequest, Progress, note_request, receive, finish}

-- The progress of an upload whose file is known.
abbrev pub named : Str → Str → ℤ → ℕ → Progress
named client path total n = record {
  client_id = client;
  filepath = path;
  total_chunks = total;
  chunks_received = n;
}

abbrev pub contents : List (Env × Bytes) → List Bytes
contents = map (λ c. c.1)

pub receive-cons :
    (env : Env) (r : UploadChunkRequest) (rs : List (Env × UploadChunkRequest)) (p q : Progress)
    (s s' : Storage)
    → note_request r p ≡ q
    → store_chunk env q.client_id q.filepath r.chunk.index r.chunk.bytes r.chunk.hash s ≡ (true, s')
    → receive ((env, r) ∷ rs) p s
      ≡ receive rs (record q { chunks_received = q.chunks_received + 1 }) s'
unfolding receive
receive-cons env r rs p q s s' e1 e2 = rw (e1, e2)

pub length-contents : (cs : List (Env × Bytes)) → length (contents cs) ≡ length cs
length-contents [] = refl
length-contents (c ∷ cs) = ap suc (length-contents cs)

pub to_int32_small : (n : ℕ) → n < 2 ^ 31 → to_int32 n ≡ pos n
to_int32_small n h = let e : n % 2 ^ 32 ≡ n = omega arith in rw e (ground arith)

-- The answer after the end of the stream.
pub finish-some :
    (ssl : Ssl) (env : Env) (p : Progress) (s : Storage)
    → (finalize_file ssl env p.client_id p.filepath p.total_chunks s).0 ≡ true
    → p.chunks_received < 2 ^ 31
    → finish ssl env (some p, s) ≡ (
      record { success = true; message = []; chunks_received = pos p.chunks_received },
      (finalize_file ssl env p.client_id p.filepath p.total_chunks s).1,
    )
unfolding finish
finish-some ssl env p s e small = rw (e, to_int32_small p.chunks_received small)
