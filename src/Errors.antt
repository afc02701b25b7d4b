-- ===== src/Errors.antt =====
-- error.go: the error codes of the cluster layer, and what a call that can fail returns.
use dvactor.Base.{
  ℕ, ◌≡◌, ◌⊎◌, inl, inr, refl, ◌+◌, ◌%◌, ◌^◌, Option, none, some, if◌then◌else◌, ◌==◌,
}
use dvactor.Vactor.{Vactor}

module _ (v : Vactor) where
  open v use {error_code_custom_start, error_code_bits}

  abbrev pub message_cannot_serialize : ℕ
  message_cannot_serialize = error_code_custom_start + 1

  abbrev pub message_not_register : ℕ
  message_not_register = error_code_custom_start + 2

  abbrev pub message_serialize_fail : ℕ
  message_serialize_fail = error_code_custom_start + 3

  abbrev pub message_len_error : ℕ
  message_len_error = error_code_custom_start + 4

  abbrev pub unknown_envelope : ℕ
  unknown_envelope = error_code_custom_start + 5

  abbrev pub message_send_fail : ℕ
  message_send_fail = error_code_custom_start + 6

  -- `protocol.ErrorCode_ErrorCodeSuccess`
  abbrev pub success : ℕ
  success = 0

  -- `vactor.ErrorCode(code)`; the code for success is no error.
  unfoldable pub error_code_to_va_error : ℕ → Option ℕ
  error_code_to_va_error code = if code == success then none else some (code % 2 ^ error_code_bits)

  -- The reverse conversion of `Send`: the nil error is success, any other its code.
  unfoldable pub va_error_to_code : Option ℕ → ℕ
  va_error_to_code none = success
  va_error_to_code (some code) = code % 2 ^ 32

-- A value, or an error code.
pub data Result {ℓ} (A : Type ℓ) : Type ℓ where
  ok : A → Result A
  fails : ℕ → Result A

infixl 5 ◌>>=◌
abbrev pub ◌>>=◌ {ℓ κ} : {X : Type ℓ} {Y : Type κ} → Result X → (X → Result Y) → Result Y
ok x >>= next = next x
fails code >>= next = fails code

pub ok-injective {ℓ} : {X : Type ℓ} {x y : X} → ok x ≡ ok y → x ≡ y
ok-injective h = cc

-- Inversion of a successful chain.
pub ok-of->>= {ℓ κ} :
    {X : Type ℓ} {Y : Type κ} (r : Result X) (next : X → Result Y) {y : Y}
    → (r >>= next) ≡ ok y
    → (x : X) × (r ≡ ok x) × (next x ≡ ok y)
ok-of->>= (ok x) next h = (x, refl, h)
ok-of->>= (fails code) next h = cc

pub Result-cases {ℓ} :
    {A : Type ℓ} (m : Result A) → ((a : A) × (m ≡ ok a)) ⊎ ((code : ℕ) × (m ≡ fails code))
Result-cases (ok a) = inl (a, refl)
Result-cases (fails code) = inr (code, refl)
