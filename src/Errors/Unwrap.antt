-- ===== src/Errors/Unwrap.antt =====
-- What a caller learns of a result.
use dropbox_lite.Prelude.{ℕ, ◌≡◌, ◌≢◌, refl, sym, ◌∙◌, [], ◌∷◌, false, Str, str_eq, ◌==◌, arith}
use dropbox_lite.Errors.{
  ErrorCode, success, to_int, message, Unwrapped, returned, thrown, of_value, of_error, of_message,
  ok, value_or_throw,
}

to_int-injective : (a b : ErrorCode) → to_int a ≡ to_int b → a ≡ b
unfolding to_int
to_int-injective a b h = ground arith

-- Different codes have different messages.
pub message-injective : (a b : ErrorCode) → message (to_int a) ≡ message (to_int b) → a ≡ b
unfolding message to_int
message-injective a b h = ground arith

success_only : (e : ErrorCode) → e ≢ success → (to_int e == 0) ≡ false
unfolding to_int
success_only e ne = ground arith

thrown-injective {ℓ} :
    {T : Type ℓ} {m n : Str} → ◌≡◌ {A = Unwrapped T} (thrown m) (thrown n) → m ≡ n
thrown-injective h = cc

module _ {ℓ} {T : Type ℓ} where
  value_or_throw-of_error :
      (default : T) (e : ErrorCode)
      → e ≢ success
      → value_or_throw (of_error default e) ≡ thrown (message (to_int e))
  unfolding value_or_throw of_error ok str_eq
  value_or_throw-of_error default e ne = rw (success_only e ne)

  -- A value comes back as it was put in. An error throws: its message where it has one, and the text of
  -- its code where the message is empty or was not given.
  pub value_or_throw_lem :
      (default value : T) (e : ErrorCode) (c : ℕ) (cs : Str)
      → e ≢ success
      → (value_or_throw (of_value value) ≡ returned value)
        × (value_or_throw (of_message default e (c ∷ cs)) ≡ thrown (c ∷ cs))
        × (value_or_throw (of_message default e []) ≡ thrown (message (to_int e)))
        × (value_or_throw (of_error default e) ≡ thrown (message (to_int e)))
  unfolding value_or_throw of_value of_message ok str_eq
  value_or_throw_lem default value e c cs ne = (
    unfold to_int in refl,
    rw (success_only e ne),
    rw (success_only e ne),
    value_or_throw-of_error default e ne,
  )

  -- The text that an error throws tells which error it was.
  pub value_or_throw_code :
      (default default' : T) (a b : ErrorCode)
      → a ≢ success
      → b ≢ success
      → value_or_throw (of_error default a) ≡ value_or_throw (of_error default' b)
      → a ≡ b
  value_or_throw_code default default' a b ha hb h = message-injective a b (
      thrown-injective
        (sym (value_or_throw-of_error default a ha) ∙ (h ∙ value_or_throw-of_error default' b hb)))

  -- An error built from the code of success is taken for a value: the default one.
  pub value_or_throw_success :
      (default : T) → value_or_throw (of_error default success) ≡ returned default
  unfolding value_or_throw of_error ok to_int
  value_or_throw_success default = refl
