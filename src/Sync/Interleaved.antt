-- ===== src/Sync/Interleaved.antt =====
-- Two files are uploaded at the same time, by two clients or by one.
use dropbox_lite.Prelude.{
  suc, ◌+◌, ◌≤◌, refl, List, [], ◌∷◌, ◌++◌, none, some, Bool, true, false, Bytes, Str, length,
  arith, inr,
}
use dropbox_lite.Prelude.Int.{pos}
use dropbox_lite.Hash.{Ssl}
use dropbox_lite.Storage.{Storage}
use dropbox_lite.Storage.Store.{NoCollision}
use dropbox_lite.Storage.Upload.{Uploaded}
use dropbox_lite.Storage.Neighbours.{Apart, Apart-swap}
use dropbox_lite.Sync.{start}
use dropbox_lite.Sync.Upload.{request}
use dropbox_lite.Sync.Handler.{Handler, reading, handle}
use dropbox_lite.Sync.Jobs.{Job, total_of, turns_of, run_both, messages, IsSound, IsDone}
use dropbox_lite.Sync.Reads.{
  Phase, sending, over, left_of, IsAt, IsAt-Unseen, read_request, read_end,
}

module _ (ssl : Ssl) (P : Bytes → Type 0) (root : Str) where
  -- The end of a schedule that gives each handler its turns.
  at_end :
      (j : Job) (ph : Phase) (h : Handler) (s : Storage)
      → length (left_of ssl P root j ph) ≤ 0
      → IsAt ssl P root j ph h s
      → IsDone ssl P root j h s
  at_end j over h s few v = v
  at_end j (sending n o qs []) h s few v = absurd (omega (arith, few))
  at_end j (sending n o qs (c ∷ cs)) h s few v = absurd (omega (arith, few))

  interleaved_from :
      (turns : List Bool) (a b : Job) (ph qh : Phase) (h k : Handler) (s : Storage)
      → NoCollision ssl P
      → IsSound ssl P root a
      → IsSound ssl P root b
      → Apart a.client a.path b.client b.path
      → Apart b.client b.path a.client a.path
      → length (left_of ssl P root a ph) ≤ turns_of true turns
      → length (left_of ssl P root b qh) ≤ turns_of false turns
      → IsAt ssl P root a ph h s
      → IsAt ssl P root b qh k s
      → let (h', k', s') =
          run_both ssl turns (left_of ssl P root a ph) (left_of ssl P root b qh) h k s in
        IsDone ssl P root a h' s' × IsDone ssl P root b k' s'
  unfolding run_both
  interleaved_from [] a b ph qh h k s sep sa sb ab ba m n va vb =
      (at_end a ph h s m va, at_end b qh k s n vb)
  interleaved_from (true ∷ turns) a b over qh h k s sep sa sb ab ba m n va vb =
      interleaved_from turns a b over qh h k s sep sa sb ab ba (omega arith) n va vb
  interleaved_from (true ∷ turns) a b (sending i o qs []) qh h k s sep sa sb ab ba m n va vb =
      let (done, unseen) = read_end ssl P root a i qs h s sa va in
      let (h', s') = handle ssl a.last none h s in
      interleaved_from turns a b over qh h' k s' sep sa sb ab ba (omega arith) n done
        (IsAt-Unseen ssl P root b qh k s s' (unseen b ab sb.one_component) vb)
  interleaved_from (true ∷ turns) a b (sending i o qs ((env, d) ∷ cs)) qh h k s sep sa sb ab ba m n
        va vb =
      let (next, unseen) = read_request ssl P root a i o qs env d cs h s sep sa va in
      let (h', s') =
        handle ssl env (some (request ssl P a.client a.path (pos (total_of a)) i o d)) h s in
      interleaved_from turns a b (sending (suc i) (o + length d) (qs ++ d ∷ []) cs) qh h' k s' sep
        sa sb ab ba (omega (arith, m)) n next (IsAt-Unseen ssl P root b qh k s s' (unseen b ab) vb)
  interleaved_from (false ∷ turns) a b ph over h k s sep sa sb ab ba m n va vb =
      interleaved_from turns a b ph over h k s sep sa sb ab ba m (omega arith) va vb
  interleaved_from (false ∷ turns) a b ph (sending i o qs []) h k s sep sa sb ab ba m n va vb =
      let (done, unseen) = read_end ssl P root b i qs k s sb vb in
      let (k', s') = handle ssl b.last none k s in
      interleaved_from turns a b ph over h k' s' sep sa sb ab ba m (omega arith)
        (IsAt-Unseen ssl P root a ph h s s' (unseen a ba sa.one_component) va) done
  interleaved_from (false ∷ turns) a b ph (sending i o qs ((env, d) ∷ cs)) h k s sep sa sb ab ba m n
        va vb =
      let (next, unseen) = read_request ssl P root b i o qs env d cs k s sep sb vb in
      let (k', s') =
        handle ssl env (some (request ssl P b.client b.path (pos (total_of b)) i o d)) k s in
      interleaved_from turns a b ph (sending (suc i) (o + length d) (qs ++ d ∷ []) cs) h k' s' sep
        sa sb ab ba m (omega (arith, n)) (IsAt-Unseen ssl P root a ph h s s' (unseen a ba) va) next

  begun :
      (j : Job) (s : Storage)
      → IsSound ssl P root j
      → Uploaded ssl P root j.client j.path [] s
      → IsAt ssl P root j (sending 0 0 [] j.sent) (reading start) s
  begun j s sound v = record {
    progress = start;
    at = refl;
    knows = inr (refl, refl);
    counted = refl;
    stored = v;
    all_sent = refl;
    past = tt;
    works = sound.works;
    rest = sound.known;
  }

  -- Two different files are uploaded at the same time, by two clients or by one, to a server where nothing
  -- fails and which has no chunks of the two files yet. Whatever the order in which the reads of the two
  -- streams are served, as long as each stream is served to its end, both calls succeed, the copy of each
  -- file is the contents that were sent of it joined, and its record has their hash and length. The paths
  -- of one client's files differ before any NUL, the clients' names have no slash, and no two contents have
  -- a hash in common.
  pub interleaved_uploads :
      (turns : List Bool) (a b : Job) (s : Storage)
      → NoCollision ssl P
      → IsSound ssl P root a
      → IsSound ssl P root b
      → Apart a.client a.path b.client b.path
      → length (messages ssl P root a) ≤ turns_of true turns
      → length (messages ssl P root b) ≤ turns_of false turns
      → Uploaded ssl P root a.client a.path [] s
      → Uploaded ssl P root b.client b.path [] s
      → let (h, k, s') =
          run_both ssl turns
            (messages ssl P root a)
            (messages ssl P root b)
            (reading start)
            (reading start)
            s in
        IsDone ssl P root a h s' × IsDone ssl P root b k s'
  interleaved_uploads turns a b s sep sa sb ne m n va vb =
      interleaved_from turns a b (sending 0 0 [] a.sent) (sending 0 0 [] b.sent) (reading start)
        (reading start) s sep sa sb ne (Apart-swap a.client a.path b.client b.path ne) m n
        (begun a s sa va) (begun b s sb vb)
