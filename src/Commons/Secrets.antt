-- ===== src/Commons/Secrets.antt =====
-- utils.go: where a configured secret or certificate is taken from.
use aerospike_prometheus_exp.Base.{
  ◌≡◌, refl, false, List, [], ◌∷◌, ◌++◌, Option, none, some, Bytes, bytes, equal, split_n2,
  split_n2-append, Free, replace_all, if◌then◌else◌, ◌==◌,
}
use aerospike_prometheus_exp.Commons.Base64.{get_value_from_base64}

-- os.LookupEnv and os.ReadFile, `none` where the variable is not set or the file cannot be read.
pub record Sources : Type 0 where
  pub lookup_env : Bytes → Option Bytes
  pub read_file : Bytes → Option Bytes

-- bytes.TrimSuffix(s, "\n")
trim_newline : Bytes → Bytes
trim_newline [] = []
trim_newline (c ∷ []) = if c == 10 then [] else c ∷ []
trim_newline (c ∷ d ∷ s) = c ∷ trim_newline (d ∷ s)

module _ (sources : Sources) where
  open sources use {lookup_env, read_file}

  clean : Option Bytes → Option Bytes
  unfolding trim_newline
  clean none = none
  clean (some s) = some (replace_all (trim_newline s) (bytes "\r") [])

  -- In these three, `none` is the error.
  unfoldable pub read_from_file : Bytes → Option Bytes
  unfolding clean
  read_from_file path = clean (read_file path)

  unfoldable pub get_value_from_base64_env_var : Bytes → Option Bytes
  get_value_from_base64_env_var name = elim (lookup_env name) [
    | none ↦ none
    | some v ↦ get_value_from_base64 v
  ]

  secret_from : Bytes → Bytes → Option Bytes
  secret_from source v =
      if equal source (bytes "file")
      then read_from_file v
      else if equal source (bytes "env")
      then lookup_env v
      else if equal source (bytes "env-b64")
      then get_value_from_base64_env_var v
      else if equal source (bytes "b64")
      then get_value_from_base64 v
      else none

  secret_of : Bytes → List Bytes → Option Bytes
  unfolding secret_from
  secret_of config (source ∷ v ∷ []) = secret_from source v
  secret_of config _ = some config

  unfoldable pub get_secret : Bytes → Option Bytes
  unfolding secret_of
  get_secret config = secret_of config (split_n2 b':' config)

  certificate_from : Bytes → Bytes → Option Bytes
  certificate_from source v =
      if equal source (bytes "file")
      then read_from_file v
      else if equal source (bytes "env-b64")
      then get_value_from_base64_env_var v
      else if equal source (bytes "b64")
      then get_value_from_base64 v
      else none

  certificate_of : Bytes → List Bytes → Option Bytes
  unfolding certificate_from
  certificate_of config (source ∷ v ∷ []) = certificate_from source v
  certificate_of config _ = read_from_file config

  unfoldable pub get_certificate : Bytes → Option Bytes
  unfolding certificate_of
  get_certificate config = certificate_of config (split_n2 b':' config)

  -- What a source other than an environment variable gives is the same for a secret and for a
  -- certificate, whatever the value behind the first colon, which may hold further colons.
  pub get_secret-eq-get_certificate :
      (source v : Bytes)
      → Free b':' source
      → equal source (bytes "env") ≡ false
      → get_secret (source ++ b':' ∷ v) ≡ get_certificate (source ++ b':' ∷ v)
  unfolding get_secret get_certificate secret_of certificate_of secret_from certificate_from
  get_secret-eq-get_certificate source v f e = rw (split_n2-append b':' source v f) (rw e refl)
