-- ===== src/Core/Content.antt =====
-- The validation of a neuron's content (pkg/core/content_validation.go) and the errors that the
-- engine returns (pkg/core/errors.go).
use qubicdb.Prelude.{
  ℕ, Bool, true, false, Option, none, some, List, [], ◌∷◌, Text, length, ltb, ◌==◌, if◌then◌else◌,
}

pub data CoreError : Type 0 where
  neuron_not_found matrix_full invalid_content content_too_large : CoreError

-- The functions of package strings that walk Unicode text, and the content hash, a UUID of the SHA-1.
pub record TextLibrary : Type 0 where
  pub trim_space : Text → Text
  pub to_lower : Text → Text
  pub fields : Text → List Text
  pub hash_content : Text → Text

abbrev pub default_max_neuron_content_bytes : ℕ
default_max_neuron_content_bytes = 65536

-- The atomic holds an int64 that `SetMaxNeuronContentBytes` keeps positive; `limit` is its value, or 0
-- for any value that is not positive.
unfoldable pub get_max_neuron_content_bytes : ℕ → ℕ
get_max_neuron_content_bytes limit = if limit == 0 then default_max_neuron_content_bytes else limit

-- the new value of the atomic; `none` is the error
unfoldable pub set_max_neuron_content_bytes : ℕ → Option ℕ
set_max_neuron_content_bytes limit = if limit == 0 then none else some limit

abbrev pub is_empty : Text → Bool
is_empty [] = true
is_empty (_ ∷ _) = false

-- `none` is success
unfoldable pub validate_neuron_content : TextLibrary → ℕ → Text → Option CoreError
unfolding get_max_neuron_content_bytes
validate_neuron_content lib limit content =
    if is_empty (lib.trim_space content)
    then some CoreError.invalid_content
    else (if ltb (get_max_neuron_content_bytes limit) (length content)
        then some CoreError.content_too_large
        else none)
