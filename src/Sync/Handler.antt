-- ===== src/Sync/Handler.antt =====
-- `UploadFile` one read at a time: the handler between two reads of its stream, which is where another
-- thread's handler may run.
use dropbox_lite.Prelude.{
  ◌+◌, ◌≡◌, refl, sym, ap, ◌∙◌, ◌⊎◌, List, [], ◌∷◌, Option, none, some, true, codes, if◌then◌else◌,
  Bool-cases, inl, inr,
}
use dropbox_lite.Hash.{Ssl}
use dropbox_lite.Storage.{Env, Storage, store_chunk}
use dropbox_lite.Sync.{
  UploadChunkRequest, UploadChunkResponse, Progress, start, note_request, receive, finish, failed,
  upload_file,
}

pub data Handler : Type 0 where
  reading : Progress → Handler
  answered : UploadChunkResponse → Handler

-- One read: a request, or the end of the stream. An answered call reads no more.
module _ (ssl : Ssl) where
  unfoldable pub handle : Env → Option UploadChunkRequest → Handler → Storage → Handler × Storage
  handle env message (answered r) s = (answered r, s)
  handle env none (reading p) s = let (r, s') = finish ssl env (some p, s) in (answered r, s')
  handle env (some r) (reading p) s =
      let q = note_request r p in
      let (ok, s') =
        store_chunk env q.client_id q.filepath r.chunk.index r.chunk.bytes r.chunk.hash s in
      if ok
      then (reading (record q { chunks_received = q.chunks_received + 1 }), s')
      else (answered (failed (codes "Failed to store chunk")), s')

  unfoldable pub handle_all :
      List (Env × Option UploadChunkRequest) → Handler → Storage → Handler × Storage
  handle_all [] h s = (h, s)
  handle_all ((env, message) ∷ ms) h s =
      let (h', s') = handle env message h s in handle_all ms h' s'

  abbrev pub stream : List (Env × UploadChunkRequest) → Env → List (Env × Option UploadChunkRequest)
  stream [] last = (last, none) ∷ []
  stream ((env, r) ∷ rs) last = (env, some r) ∷ stream rs last

  handle_all-answered :
      (ms : List (Env × Option UploadChunkRequest)) (r : UploadChunkResponse) (s : Storage)
      → handle_all ms (answered r) s ≡ (answered r, s)
  unfolding handle_all handle
  handle_all-answered [] r s = refl
  handle_all-answered (m ∷ ms) r s = handle_all-answered ms r s

  -- A read whose chunk is stored, and one whose chunk is refused.
  handle-read :
      (env : Env) (r : UploadChunkRequest) (rs : List (Env × UploadChunkRequest)) (p : Progress)
      (s : Storage)
      → let q = note_request r p in
        let t = store_chunk env q.client_id q.filepath r.chunk.index r.chunk.bytes r.chunk.hash s in
        ((t.0 ≡ true)
          × (handle env (some r) (reading p) s
              ≡ (reading (record q { chunks_received = q.chunks_received + 1 }), t.1))
          × (receive ((env, r) ∷ rs) p s
              ≡ receive rs (record q { chunks_received = q.chunks_received + 1 }) t.1))
        ⊎ ((handle env (some r) (reading p) s
              ≡ (answered (failed (codes "Failed to store chunk")), t.1))
            × (receive ((env, r) ∷ rs) p s ≡ (none, t.1)))
  unfolding handle receive
  handle-read env r rs p s =
      let q = note_request r p in
      let t = store_chunk env q.client_id q.filepath r.chunk.index r.chunk.bytes r.chunk.hash s in
      elim (Bool-cases t.0) [
        | inl stored ↦ inl (stored, rw stored refl, rw stored refl)
        | inr refused ↦ inr (rw refused refl, rw refused refl)
      ]

  pub handle-stored :
      (env : Env) (r : UploadChunkRequest) (p q : Progress) (s s' : Storage)
      → note_request r p ≡ q
      → store_chunk env q.client_id q.filepath r.chunk.index r.chunk.bytes r.chunk.hash s
        ≡ (true, s')
      → handle env (some r) (reading p) s
        ≡ (reading (record q { chunks_received = q.chunks_received + 1 }), s')
  unfolding handle
  handle-stored env r p q s s' e1 e2 = rw (e1, e2)

  abbrev pub over : UploadChunkResponse × Storage → Handler × Storage
  over (r, s) = (answered r, s)

  pub handle-end :
      (env : Env) (p : Progress) (s : Storage)
      → handle env none (reading p) s ≡ over (finish ssl env (some p, s))
  unfolding handle
  handle-end env p s = refl

  handle_all-receive :
      (rs : List (Env × UploadChunkRequest)) (last : Env) (p : Progress) (s : Storage)
      → handle_all (stream rs last) (reading p) s ≡ over (finish ssl last (receive rs p s))
  unfolding handle_all
  handle_all-receive [] last p s = unfold handle receive in refl
  handle_all-receive ((env, r) ∷ rs) last p s =
      let q = note_request r p in
      let t = store_chunk env q.client_id q.filepath r.chunk.index r.chunk.bytes r.chunk.hash s in
      let next = λ (x : Handler × Storage). handle_all (stream rs last) x.0 x.1 in
      let ends = λ (x : Option Progress × Storage). over (finish ssl last x) in
      let answer = failed (codes "Failed to store chunk") in
      let refused : over (finish ssl last (none, t.1)) ≡ (answered answer, t.1) =
        unfold finish in refl in
      elim (handle-read env r rs p s) [
        | inl (stored, one, rest) ↦
            ap next one
            ∙ (handle_all-receive rs last (record q { chunks_received = q.chunks_received + 1 }) t.1
                ∙ sym (ap ends rest))
        | inr (one, rest) ↦
            ap next one
            ∙ (handle_all-answered (stream rs last) answer t.1 ∙ (sym refused ∙ sym (ap ends rest)))
      ]

  -- Read by read the handler does what the whole call does: it ends with its answer, in its state.
  pub handle_all-upload_file :
      (requests : List (Env × UploadChunkRequest)) (last : Env) (s : Storage)
      → let (r, s') = upload_file ssl requests last s in
        handle_all (stream requests last) (reading start) s ≡ (answered r, s')
  unfolding upload_file
  handle_all-upload_file requests last s = handle_all-receive requests last start s
