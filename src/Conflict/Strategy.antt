-- ===== src/Conflict/Strategy.antt =====
-- Which side wins.
use dropbox_lite.Prelude.{◌≡◌, ◌↔◌, true, str_eq_iff, str_eq_sym, arith, ◌≢◌}
use dropbox_lite.Prelude.Int.{pos, ◌<ℤ◌}
use dropbox_lite.Conflict.{
  ConflictStrategy, keep_local, keep_remote, keep_both, manual, ConflictInfo, has_conflict,
  auto_resolve,
}

-- The same conflict, seen from the other side.
abbrev pub swap : ConflictInfo → ConflictInfo
swap info = record {
  path = info.path;
  local_hash = info.remote_hash;
  remote_hash = info.local_hash;
  local_modified_time = info.remote_modified_time;
  remote_modified_time = info.local_modified_time;
  local_version = info.remote_version;
  remote_version = info.local_version;
}

abbrev pub mirror : ConflictStrategy → ConflictStrategy
mirror keep_local = keep_remote
mirror keep_remote = keep_local
mirror keep_both = keep_both
mirror manual = manual

-- The last write wins: the local side is kept exactly when it is strictly later, the remote side
-- exactly when that is, both exactly when the times agree; the two sides decide alike.
pub auto_resolve_last_write :
    (info : ConflictInfo)
    → ((auto_resolve info ≡ keep_local) ↔ (info.remote_modified_time <ℤ info.local_modified_time))
      × ((auto_resolve info ≡ keep_remote)
          ↔ (info.local_modified_time <ℤ info.remote_modified_time))
      × ((auto_resolve info ≡ keep_both) ↔ (info.local_modified_time ≡ info.remote_modified_time))
      × (auto_resolve (swap info) ≡ mirror (auto_resolve info))
unfolding auto_resolve
auto_resolve_last_write info = (ground arith, ground arith, ground arith, ground arith)

-- There is a conflict exactly when the contents differ and both sides have a version; both sides see
-- it alike.
pub has_conflict_iff :
    (info : ConflictInfo)
    → ((has_conflict info ≡ true) ↔ (
        (info.local_hash ≢ info.remote_hash)
        × (pos 0 <ℤ info.local_version)
        × (pos 0 <ℤ info.remote_version)))
      × (has_conflict (swap info) ≡ has_conflict info)
unfolding has_conflict
has_conflict_iff info = (
  ground (arith, str_eq_iff info.local_hash info.remote_hash),
  ground (arith, str_eq_sym info.local_hash info.remote_hash),
)
