-- ===== src/Errors.antt =====
-- ErrorCode, its messages and Result (include/common/error.h). `Result<T>` keeps a value of `T` also where
-- it holds an error: the default one.
pub mod Unwrap
use dropbox_lite.Prelude.{ℕ, ◌≡◌, List, [], ◌∷◌, Bool, Str, codes, str_eq, if◌then◌else◌, ◌==◌}

pub data ErrorCode : Type 0 where
  success file_not_found permission_denied network_error database_error hash_mismatch : ErrorCode
  chunking_failed compression_failed conflict_detected invalid_argument out_of_space : ErrorCode
  timeout unknown : ErrorCode

-- `static_cast<int>`.
unfoldable pub to_int : ErrorCode → ℕ
to_int success = 0
to_int file_not_found = 1
to_int permission_denied = 2
to_int network_error = 3
to_int database_error = 4
to_int hash_mismatch = 5
to_int chunking_failed = 6
to_int compression_failed = 7
to_int conflict_detected = 8
to_int invalid_argument = 9
to_int out_of_space = 10
to_int timeout = 11
to_int unknown = 12

-- `DropboxErrorCategory::message`, on the number of a code.
unfoldable pub message : ℕ → Str
message ev =
    if ev == 0
    then codes "Success"
    else if ev == 1
    then codes "File not found"
    else if ev == 2
    then codes "Permission denied"
    else if ev == 3
    then codes "Network error"
    else if ev == 4
    then codes "Database error"
    else if ev == 5
    then codes "Hash mismatch - data corruption detected"
    else if ev == 6
    then codes "Chunking operation failed"
    else if ev == 7
    then codes "Compression/decompression failed"
    else if ev == 8
    then codes "File conflict detected"
    else if ev == 9
    then codes "Invalid argument"
    else if ev == 10
    then codes "Out of disk space"
    else if ev == 11
    then codes "Operation timed out"
    else codes "Unknown error"

abbrev pub category_name : Str
category_name = codes "dropbox-lite"

-- A `std::error_code`: a number and the name of its category.
unfoldable pub make_error_code : ErrorCode → ℕ × Str
make_error_code e = (to_int e, category_name)

pub record Result {ℓ} (T : Type ℓ) : Type ℓ where
  pub value : T
  pub error : ErrorCode
  pub error_message : Str

-- How `valueOrThrow` ends.
pub data Unwrapped {ℓ} (T : Type ℓ) : Type ℓ where
  returned : T → Unwrapped T
  thrown : Str → Unwrapped T

module _ {ℓ} {T : Type ℓ} where
  unfoldable pub of_value : T → Result T
  of_value value = record { value = value; error = success; error_message = [] }

  -- The constructors from an error, with the default value of `T`.
  unfoldable pub of_error : T → ErrorCode → Result T
  of_error default error = record { value = default; error = error; error_message = [] }

  unfoldable pub of_message : T → ErrorCode → Str → Result T
  of_message default error error_message = record {
    value = default;
    error = error;
    error_message = error_message;
  }

  unfoldable pub ok : Result T → Bool
  unfolding to_int
  ok r = to_int r.error == 0

  unfoldable pub value_or_throw : Result T → Unwrapped T
  value_or_throw r =
      if ok r
      then returned r.value
      else thrown (if str_eq r.error_message [] then message (to_int r.error) else r.error_message)

-- `Result<void>`.
pub record VoidResult : Type 0 where
  pub error : ErrorCode
  pub error_message : Str

unfoldable pub void_success : VoidResult
void_success = record { error = success; error_message = [] }

unfoldable pub void_error : ErrorCode → VoidResult
void_error error = record { error = error; error_message = [] }

unfoldable pub void_message : ErrorCode → Str → VoidResult
void_message error error_message = record { error = error; error_message = error_message }

unfoldable pub void_ok : VoidResult → Bool
unfolding to_int
void_ok r = to_int r.error == 0
