-- ===== src/Sync/Reads.antt =====
-- One read of an upload, and what it leaves of the upload of another file.
use mathlib.Core.List.{flatten}
use dropbox_lite.Prelude.{
  ℕ, suc, ◌+◌, ◌≡◌, ◌⊎◌, refl, sym, ap, subst, ◌∙◌, List, [], ◌∷◌, ◌++◌, Option, none, some, true,
  false, Bytes, Str, All, All-append, length, length-append, str_eq, arith, append-nil,
  append_assoc, inl, inr,
}
use dropbox_lite.Prelude.Int.{pos}
use dropbox_lite.Hash.{Ssl, sha256}
use dropbox_lite.Storage.{Env, Storage, store_chunk, finalize_file}
use dropbox_lite.Storage.Paths.{NoSlash}
use dropbox_lite.Storage.Store.{Works, NoCollision}
use dropbox_lite.Storage.Upload.{Uploaded, store_chunk-Uploaded}
use dropbox_lite.Storage.Finalize.{finalize_file-Uploaded}
use dropbox_lite.Storage.Neighbours.{Apart}
use dropbox_lite.Storage.Frame.{
  Unseen, Uploaded-Unseen, Finalized-Unseen, store_chunk-Unseen, finalize_file-Unseen,
}
use dropbox_lite.Sync.{UploadChunkRequest, UploadChunkResponse, Progress, start, note_request}
use dropbox_lite.Sync.Requests.{named, contents, finish-some}
use dropbox_lite.Sync.Upload.{request, requests}
use dropbox_lite.Sync.Handler.{
  Handler, reading, answered, handle, handle-stored, handle-end, stream,
}
use dropbox_lite.Sync.Handler
use dropbox_lite.Sync.Jobs.{Job, total_of, IsSound, IsDone}

-- Where an upload is, and what its handler will still read.
pub data Phase : Type 0 where
  sending : ℕ → ℕ → List Bytes → List (Env × Bytes) → Phase
  over : Phase

module _ (ssl : Ssl) (P : Bytes → Type 0) (root : Str) where
  -- The handler knows the file, or has read nothing yet.
  abbrev pub Knows : Job → ℕ → Progress → Type 0
  Knows j n p = (p ≡ named j.client j.path (pos (total_of j)) n) ⊎ ((p ≡ start) × (n ≡ 0))

  -- An upload under way: of its contents, the `n` in `qs` are stored and those in `cs` remain.
  pub record IsSending (j : Job) (n : ℕ) (qs : List Bytes) (cs : List (Env × Bytes)) (h : Handler)
      (s : Storage) : Type 0 where
    pub progress : Progress
    pub at : h ≡ reading progress
    pub knows : Knows j n progress
    pub counted : length qs ≡ n
    pub stored : Uploaded ssl P root j.client j.path qs s
    pub all_sent : qs ++ contents cs ≡ contents j.sent
    pub past : All P qs
    pub works : All (λ c. Works c.0) cs
    pub rest : All P (contents cs)

  abbrev pub left_of : Job → Phase → List (Env × Option UploadChunkRequest)
  left_of j (sending n o qs cs) =
      stream ssl (requests ssl P j.client j.path (pos (total_of j)) n o cs) j.last
  left_of j over = []

  abbrev pub IsAt : Job → Phase → Handler → Storage → Type 0
  IsAt j (sending n o qs cs) h s = IsSending j n qs cs h s
  IsAt j over h s = IsDone ssl P root j h s

  -- A step of the other file's handler.
  pub IsAt-Unseen :
      (j : Job) (ph : Phase) (h : Handler) (s r : Storage)
      → Unseen ssl P root j.client j.path s r
      → IsAt j ph h s
      → IsAt j ph h r
  IsAt-Unseen j over h s r u v =
      (v.0, Finalized-Unseen ssl P root j.client j.path (flatten (contents j.sent)) s r u v.1)
  IsAt-Unseen j (sending n o qs cs) h s r u v = record {
    progress = v.progress;
    at = v.at;
    knows = v.knows;
    counted = v.counted;
    stored = Uploaded-Unseen ssl P root j.client j.path qs s r v.past u v.stored;
    all_sent = v.all_sent;
    past = v.past;
    works = v.works;
    rest = v.rest;
  }

  pub note_request-Knows :
      (j : Job) (n o : ℕ) (d : Bytes) (p : Progress)
      → IsSound ssl P root j
      → Knows j n p
      → note_request (request ssl P j.client j.path (pos (total_of j)) n o d) p
        ≡ named j.client j.path (pos (total_of j)) n
  unfolding note_request start str_eq
  note_request-Knows j n o d p sound (inl e) =
      let ne : str_eq j.client [] ≡ false = sound.client_named in
      ap (note_request (request ssl P j.client j.path (pos (total_of j)) n o d)) e ∙ rw ne refl
  note_request-Knows j n o d p sound (inr (e, z)) =
      ap (note_request (request ssl P j.client j.path (pos (total_of j)) n o d)) e
      ∙ ap (named j.client j.path (pos (total_of j))) (sym z)

  -- A request is stored.
  pub read_request :
      (j : Job) (n o : ℕ) (qs : List Bytes) (env : Env) (d : Bytes) (cs : List (Env × Bytes))
      (h : Handler) (s : Storage)
      → NoCollision ssl P
      → IsSound ssl P root j
      → IsSending j n qs ((env, d) ∷ cs) h s
      → let m = request ssl P j.client j.path (pos (total_of j)) n o d in
        let (h', s') = handle ssl env (some m) h s in
        IsSending j (suc n) (qs ++ d ∷ []) cs h' s'
        × ((k : Job)
            → Apart j.client j.path k.client k.path
            → Unseen ssl P root k.client k.path s s')
  read_request j n o qs env d cs h s sep sound v =
      let total = pos (total_of j) in
      let m = request ssl P j.client j.path total n o d in
      let (stored, v1) =
        store_chunk-Uploaded ssl P env root j.client j.path qs d s sep v.works.0 v.past v.rest.0
          v.stored in
      let s1 = (store_chunk env j.client j.path (pos (length qs)) d (sha256 ssl d) s).1 in
      let reads : handle ssl env (some m) h s
          ≡ (reading (named j.client j.path total (n + 1)), s1) =
        ap (λ (x : Handler). handle ssl env (some m) x s) v.at
        ∙ handle-stored ssl env m v.progress (named j.client j.path total n) s s1
            (note_request-Knows j n o d v.progress sound v.knows)
            (subst
              (λ (k : ℕ). store_chunk env j.client j.path (pos k) d (sha256 ssl d) s ≡ (true, s1))
              v.counted (λ i. (stored i, s1))) in
      subst
        (λ (t : Handler × Storage).
          IsSending j (suc n) (qs ++ d ∷ []) cs t.0 t.1
          × ((k : Job)
              → Apart j.client j.path k.client k.path
              → Unseen ssl P root k.client k.path s t.1))
        (sym reads)
        (
          record {
            progress = named j.client j.path total (n + 1);
            at = refl;
            knows = inl (ap (named j.client j.path total) (omega arith));
            counted = omega (arith, length-append {0} qs (d ∷ []), v.counted);
            stored = v1;
            all_sent = append_assoc qs (d ∷ []) (contents cs) ∙ v.all_sent;
            past = All-append P qs (d ∷ []) v.past (v.rest.0, tt);
            works = v.works.1;
            rest = v.rest.1;
          },
          λ k ne.
              store_chunk-Unseen ssl P env root k.client k.path j.client j.path (pos (length qs)) d
                s sep v.works.0 v.rest.0 v.stored.rooted v.stored.addressed ne,
        )

  nothing_sent : (cs : List (Env × Bytes)) → length (contents cs) ≡ 0 → cs ≡ []
  nothing_sent [] e = refl
  nothing_sent (c ∷ cs) e = absurd (omega (arith, e))

  -- The end of the stream.
  pub read_end :
      (j : Job) (n : ℕ) (qs : List Bytes) (h : Handler) (s : Storage)
      → IsSound ssl P root j
      → IsSending j n qs [] h s
      → let (h', s') = handle ssl j.last none h s in
        IsDone ssl P root j h' s'
        × ((k : Job)
            → Apart j.client j.path k.client k.path
            → NoSlash k.client
            → Unseen ssl P root k.client k.path s s')
  read_end j n qs h s sound v =
      let total = pos (total_of j) in
      let whole : qs ≡ contents j.sent = sym (append-nil qs) ∙ v.all_sent in
      let all = ap length whole in
      let stored = subst (λ t. Uploaded ssl P root j.client j.path t s) whole v.stored in
      let done =
        finalize_file-Uploaded ssl P j.last root j.client j.path (contents j.sent) s sound.ends
          stored sound.full sound.few in
      let s1 = (finalize_file ssl j.last j.client j.path total s).1 in
      let answer : UploadChunkResponse = record {
        success = true;
        message = [];
        chunks_received = total;
      } in
      let knows : v.progress ≡ named j.client j.path total (total_of j) = elim v.knows [
        | inl e ↦ e ∙ ap (named j.client j.path total) (sym v.counted ∙ all)
        | inr (_, zero_sent) ↦
            absurd (sound.some_content (nothing_sent j.sent (sym all ∙ (v.counted ∙ zero_sent))))
      ] in
      let reads : handle ssl j.last none h s ≡ (answered answer, s1) =
        ap (λ (x : Handler). handle ssl j.last none x s) (v.at ∙ ap reading knows)
        ∙ (handle-end ssl j.last (named j.client j.path total (total_of j)) s
            ∙ ap (Handler.over ssl) (
                finish-some ssl j.last (named j.client j.path total (total_of j)) s done.0
                  sound.few)) in
      subst
        (λ (t : Handler × Storage).
          IsDone ssl P root j t.0 t.1
          × ((k : Job)
              → Apart j.client j.path k.client k.path
              → NoSlash k.client
              → Unseen ssl P root k.client k.path s t.1))
        (sym reads)
        (
          (refl, (refl, done.1, done.2)),
          λ k ne one.
              finalize_file-Unseen ssl P j.last root k.client k.path j.client j.path total s
                stored.rooted stored.addressed one sound.one_component ne,
        )
