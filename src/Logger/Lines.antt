-- ===== src/Logger/Lines.antt =====
-- Which lines are written.
use dropbox_lite.Prelude.{
  ◌≡◌, refl, sym, ap, subst, ◌∙◌, List, [], ◌∷◌, ◌++◌, some, true, false, Str, ltb, if◌then◌else◌,
  Bool-cases, inl, inr, append-nil, append_assoc,
}
use dropbox_lite.Prelude.Dict.{get, get-put_self}
use dropbox_lite.Logger.{LogLevel, rank, Logger, Time, log_line, append_line, lines_of, log}

pub record Message : Type 0 where
  pub level : LogLevel
  pub text : Str
  pub time : Time

unfoldable pub log_all : List Message → Logger → Logger
log_all [] s = s
log_all (m ∷ ms) s = log_all ms (log m.level m.text m.time s)

-- The lines of the messages that reach a level.
unfoldable pub reaching : LogLevel → List Message → List Str
reaching level [] = []
reaching level (m ∷ ms) =
    let rest = reaching level ms in
    if ltb (rank m.level) (rank level) then rest else log_line m.level m.time m.text ∷ rest

-- The lines in the open file.
abbrev pub in_file : Str → Logger → List Str
in_file path s = lines_of (get s.files path)

log-quiet :
    (m : Message) (s : Logger)
    → ltb (rank m.level) (rank s.level) ≡ true
    → log m.level m.text m.time s ≡ s
unfolding log
log-quiet m s e = rw e

log-loud :
    (m : Message) (s : Logger)
    → ltb (rank m.level) (rank s.level) ≡ false
    → log m.level m.text m.time s ≡ record s {
      console = s.console ++ log_line m.level m.time m.text ∷ [];
      files = append_line s.file (log_line m.level m.time m.text) s.files;
    }
unfolding log
log-loud m s e = rw e

in_file-append_line :
    (path line : Str) (s : Logger)
    → s.file ≡ some path
    → lines_of (get (append_line s.file line s.files) path) ≡ in_file path s ++ line ∷ []
unfolding append_line
in_file-append_line path line s open_file =
    ap (λ f. lines_of (get (append_line f line s.files) path)) open_file
    ∙ ap lines_of (get-put_self s.files path (in_file path s ++ line ∷ []))

reaching-quiet :
    (level : LogLevel) (m : Message) (ms : List Message)
    → ltb (rank m.level) (rank level) ≡ true
    → reaching level (m ∷ ms) ≡ reaching level ms
unfolding reaching
reaching-quiet level m ms e = rw e

reaching-loud :
    (level : LogLevel) (m : Message) (ms : List Message)
    → ltb (rank m.level) (rank level) ≡ false
    → reaching level (m ∷ ms) ≡ log_line m.level m.time m.text ∷ reaching level ms
unfolding reaching
reaching-loud level m ms e = rw e

-- The logger `r` is `s` after these lines.
abbrev pub Written : Str → Logger → List Str → Logger → Type 0
Written path s ls r =
    (r.console ≡ s.console ++ ls)
    × (in_file path r ≡ in_file path s ++ ls)
    × (r.level ≡ s.level)
    × (r.file ≡ some path)

-- Every message that reaches the level is written once, in order, to the console and to the log file that
-- is open; one below it nowhere. The level and the open file stay.
pub log_all-reaching :
    (ms : List Message) (path : Str) (s : Logger)
    → s.file ≡ some path
    → Written path s (reaching s.level ms) (log_all ms s)
unfolding log_all
log_all-reaching [] path s open_file =
    unfold reaching in
    (sym (append-nil s.console), sym (append-nil (in_file path s)), refl, open_file)
log_all-reaching (m ∷ ms) path s open_file = elim (Bool-cases (ltb (rank m.level) (rank s.level))) [
  | inl quiet ↦
      subst (λ (r : Logger). Written path s (reaching s.level (m ∷ ms)) (log_all ms r))
        (sym (log-quiet m s quiet))
        (subst (λ (ls : List Str). Written path s ls (log_all ms s))
          (sym (reaching-quiet s.level m ms quiet)) (log_all-reaching ms path s open_file))
  | inr loud ↦
      let line = log_line m.level m.time m.text in
      let s1 = record s {
        console = s.console ++ line ∷ [];
        files = append_line s.file line s.files;
      } in
      let (console, file, level, still) = log_all-reaching ms path s1 open_file in
      subst (λ (r : Logger). Written path s (reaching s.level (m ∷ ms)) (log_all ms r))
        (sym (log-loud m s loud))
        (subst (λ (ls : List Str). Written path s ls (log_all ms s1))
          (sym (reaching-loud s.level m ms loud))
          (
            console ∙ append_assoc s.console (line ∷ []) (reaching s.level ms),
            file
                ∙ (ap (λ (t : List Str). t ++ reaching s.level ms)
                      (in_file-append_line path line s open_file)
                    ∙ append_assoc (in_file path s) (line ∷ []) (reaching s.level ms)),
            level,
            still,
          ))
]
