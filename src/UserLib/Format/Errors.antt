-- ===== src/UserLib/Format/Errors.antt =====
-- The texts of the error numbers in scheduler/lib/printfmt.c.
use features_operating_syste.Prelude.{ℕ, Option, none, some, List, [], ◌∷◌, ◌==◌, if◌then◌else◌}

-- "unspecified error"
abbrev pub texto_unspecified_error : List ℕ
texto_unspecified_error =
    b'u' ∷ b'n' ∷ b's' ∷ b'p' ∷ b'e' ∷ b'c' ∷ b'i' ∷ b'f' ∷ b'i' ∷ b'e' ∷ b'd' ∷ b' ' ∷ b'e' ∷ b'r'
    ∷ b'r' ∷ b'o' ∷ b'r' ∷ []

-- "bad environment"
abbrev pub texto_bad_environment : List ℕ
texto_bad_environment =
    b'b' ∷ b'a' ∷ b'd' ∷ b' ' ∷ b'e' ∷ b'n' ∷ b'v' ∷ b'i' ∷ b'r' ∷ b'o' ∷ b'n' ∷ b'm' ∷ b'e' ∷ b'n'
    ∷ b't' ∷ []

-- "invalid parameter"
abbrev pub texto_invalid_parameter : List ℕ
texto_invalid_parameter =
    b'i' ∷ b'n' ∷ b'v' ∷ b'a' ∷ b'l' ∷ b'i' ∷ b'd' ∷ b' ' ∷ b'p' ∷ b'a' ∷ b'r' ∷ b'a' ∷ b'm' ∷ b'e'
    ∷ b't' ∷ b'e' ∷ b'r' ∷ []

-- "out of memory"
abbrev pub texto_out_of_memory : List ℕ
texto_out_of_memory =
    b'o' ∷ b'u' ∷ b't' ∷ b' ' ∷ b'o' ∷ b'f' ∷ b' ' ∷ b'm' ∷ b'e' ∷ b'm' ∷ b'o' ∷ b'r' ∷ b'y' ∷ []

-- "out of environments"
abbrev pub texto_out_of_environments : List ℕ
texto_out_of_environments =
    b'o' ∷ b'u' ∷ b't' ∷ b' ' ∷ b'o' ∷ b'f' ∷ b' ' ∷ b'e' ∷ b'n' ∷ b'v' ∷ b'i' ∷ b'r' ∷ b'o' ∷ b'n'
    ∷ b'm' ∷ b'e' ∷ b'n' ∷ b't' ∷ b's' ∷ []

-- "segmentation fault"
abbrev pub texto_segmentation_fault : List ℕ
texto_segmentation_fault =
    b's' ∷ b'e' ∷ b'g' ∷ b'm' ∷ b'e' ∷ b'n' ∷ b't' ∷ b'a' ∷ b't' ∷ b'i' ∷ b'o' ∷ b'n' ∷ b' ' ∷ b'f'
    ∷ b'a' ∷ b'u' ∷ b'l' ∷ b't' ∷ []

-- "env is not recving"
abbrev pub texto_env_is_not_recving : List ℕ
texto_env_is_not_recving =
    b'e' ∷ b'n' ∷ b'v' ∷ b' ' ∷ b'i' ∷ b's' ∷ b' ' ∷ b'n' ∷ b'o' ∷ b't' ∷ b' ' ∷ b'r' ∷ b'e' ∷ b'c'
    ∷ b'v' ∷ b'i' ∷ b'n' ∷ b'g' ∷ []

-- "unexpected end of file"
abbrev pub texto_unexpected_end_of_file : List ℕ
texto_unexpected_end_of_file =
    b'u' ∷ b'n' ∷ b'e' ∷ b'x' ∷ b'p' ∷ b'e' ∷ b'c' ∷ b't' ∷ b'e' ∷ b'd' ∷ b' ' ∷ b'e' ∷ b'n' ∷ b'd'
    ∷ b' ' ∷ b'o' ∷ b'f' ∷ b' ' ∷ b'f' ∷ b'i' ∷ b'l' ∷ b'e' ∷ []

-- `error_string`; `none` is NULL, or a number that is not below MAXERROR.
unfoldable pub error_string : ℕ → Option (List ℕ)
error_string err =
    if err == 1
    then some texto_unspecified_error
    else if err == 2
    then some texto_bad_environment
    else if err == 3
    then some texto_invalid_parameter
    else if err == 4
    then some texto_out_of_memory
    else if err == 5
    then some texto_out_of_environments
    else if err == 6
    then some texto_segmentation_fault
    else if err == 7
    then some texto_env_is_not_recving
    else if err == 8
    then some texto_unexpected_end_of_file
    else none

-- "error %d" and "%s"
abbrev pub formato_error_d : List ℕ
formato_error_d = b'e' ∷ b'r' ∷ b'r' ∷ b'o' ∷ b'r' ∷ b' ' ∷ b'%' ∷ b'd' ∷ []

abbrev pub formato_s : List ℕ
formato_s = b'%' ∷ b's' ∷ []
