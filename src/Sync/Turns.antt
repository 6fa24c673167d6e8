-- ===== src/Sync/Turns.antt =====
-- A schedule of two handlers turn by turn.
use dropbox_lite.Prelude.{◌≡◌, refl, ap, ◌∙◌, List, [], ◌∷◌, Option, Bool, true, false}
use dropbox_lite.Hash.{Ssl}
use dropbox_lite.Storage.{Env, Storage}
use dropbox_lite.Sync.{UploadChunkRequest}
use dropbox_lite.Sync.Handler.{Handler, handle}
use dropbox_lite.Sync.Jobs.{run_both}

-- The schedule turn by turn.
module _ (ssl : Ssl) where
  abbrev pub Message : Type 0
  Message = Env × Option UploadChunkRequest

  turn_first :
      (turns : List Bool) (m : Message) (ms ns : List Message) (h h' k : Handler) (s s' : Storage)
      → handle ssl m.0 m.1 h s ≡ (h', s')
      → run_both ssl (true ∷ turns) (m ∷ ms) ns h k s ≡ run_both ssl turns ms ns h' k s'
  unfolding run_both
  turn_first turns m ms ns h h' k s s' e =
      ap (λ (t : Handler × Storage). run_both ssl turns ms ns t.0 k t.1) e

  turn_second :
      (turns : List Bool) (n : Message) (ms ns : List Message) (h k k' : Handler) (s s' : Storage)
      → handle ssl n.0 n.1 k s ≡ (k', s')
      → run_both ssl (false ∷ turns) ms (n ∷ ns) h k s ≡ run_both ssl turns ms ns h k' s'
  unfolding run_both
  turn_second turns n ms ns h k k' s s' e =
      ap (λ (t : Handler × Storage). run_both ssl turns ms ns h t.0 t.1) e

  pub five_turns :
      (m0 m1 m2 n0 n1 n2 : Message) (h0 h1 h2 h3 k0 k1 k2 : Handler) (s0 s1 s2 s3 s4 s5 : Storage)
      → handle ssl m0.0 m0.1 h0 s0 ≡ (h1, s1)
      → handle ssl n0.0 n0.1 k0 s1 ≡ (k1, s2)
      → handle ssl n1.0 n1.1 k1 s2 ≡ (k2, s3)
      → handle ssl m1.0 m1.1 h1 s3 ≡ (h2, s4)
      → handle ssl m2.0 m2.1 h2 s4 ≡ (h3, s5)
      → run_both ssl
          (true ∷ false ∷ false ∷ true ∷ true ∷ [])
          (m0 ∷ m1 ∷ m2 ∷ [])
          (n0 ∷ n1 ∷ n2 ∷ [])
          h0
          k0
          s0
        ≡ (h3, k2, s5)
  five_turns m0 m1 m2 n0 n1 n2 h0 h1 h2 h3 k0 k1 k2 s0 s1 s2 s3 s4 s5 e1 e2 e3 e4 e5 =
      turn_first (false ∷ false ∷ true ∷ true ∷ []) m0 (m1 ∷ m2 ∷ []) (n0 ∷ n1 ∷ n2 ∷ []) h0 h1 k0
        s0 s1 e1
      ∙ (turn_second (false ∷ true ∷ true ∷ []) n0 (m1 ∷ m2 ∷ []) (n1 ∷ n2 ∷ []) h1 k0 k1 s1 s2 e2
          ∙ (turn_second (true ∷ true ∷ []) n1 (m1 ∷ m2 ∷ []) (n2 ∷ []) h1 k1 k2 s2 s3 e3
              ∙ (turn_first (true ∷ []) m1 (m2 ∷ []) (n2 ∷ []) h1 h2 k2 s3 s4 e4
                  ∙ (turn_first [] m2 [] (n2 ∷ []) h2 h3 k2 s4 s5 e5 ∙ unfold run_both in refl))))
