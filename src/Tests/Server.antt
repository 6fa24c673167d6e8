-- ===== src/Tests/Server.antt =====
-- The storage of the server.
use dropbox_lite.Prelude.{
  ℕ, ◌≡◌, ◌≢◌, ◌⊎◌, inl, inr, refl, sym, ap, ◌∙◌, [], ◌∷◌, Bytes, Str, true, arith, codes,
}
use dropbox_lite.Prelude.Int.{pos}
use dropbox_lite.Prelude.Dict.{get}
use dropbox_lite.Hash.{sha256, to_hex, hex_digit}
use dropbox_lite.Metadata.{done, get_file_chunks, chunks_of, order_rows}
use dropbox_lite.Storage.{Env, Storage, db_of}
use dropbox_lite.Storage.Store.{Works, NoCollision}
use dropbox_lite.Storage.Upload.{Uploaded}
use dropbox_lite.Tests.{toy, fill}

-- Nothing fails.
abbrev pub good : Env
good = record {
  can_write = λ p. true;
  db_opens = λ c. true;
  db_created = λ c. true;
  rc = done;
  record_rc = done;
  now = pos 100;
  unset = pos 0;
}

pub good-Works : Works good
good-Works = record {
  writes = λ p. refl;
  opens = λ c. refl;
  creates = λ c. refl;
  answers = refl;
  records = refl;
}

abbrev pub empty_server : Storage
empty_server = record { storage_root = codes "r"; files = []; dbs = []; client_dbs = [] }

abbrev pub one : Bytes
one = 1 ∷ 2 ∷ []

abbrev pub two : Bytes
two = 3 ∷ []

-- Two contents, whose hashes differ.
abbrev pub Sent : Bytes → Type 0
Sent d = (d ≡ one) ⊎ (d ≡ two)

abbrev second : Str → ℕ
second (a ∷ b ∷ cs) = b
second _ = 0

hashes_differ : sha256 toy one ≢ sha256 toy two
unfolding sha256 to_hex hex_digit fill
hashes_differ e = absurd (omega (arith, ap second e))

pub Sent-NoCollision : NoCollision toy Sent
Sent-NoCollision p q (inl a) (inl b) e = a ∙ sym b
Sent-NoCollision p q (inr a) (inr b) e = a ∙ sym b
Sent-NoCollision p q (inl a) (inr b) e =
    absurd (hashes_differ (ap (sha256 toy) (sym a) ∙ (e ∙ ap (sha256 toy) b)))
Sent-NoCollision p q (inr a) (inl b) e =
    absurd (hashes_differ (ap (sha256 toy) (sym b) ∙ (sym e ∙ ap (sha256 toy) a)))

pub nothing_yet : Uploaded toy Sent (codes "r") (codes "me") (codes "a") [] empty_server
unfolding get db_of get_file_chunks chunks_of order_rows
nothing_yet = record {
  rooted = refl;
  addressed = λ h d long e. cc;
  present = tt;
  recorded = record { listed = refl; before = tt; settled = refl };
}
