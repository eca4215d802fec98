-- ===== src/Commons/Certificates.antt =====
-- utils.go: the certificates of the configuration.
use aerospike_prometheus_exp.Base.{
  Bool, ◌&&◌, ◌||◌, List, [], ◌∷◌, Option, none, some, Bytes, is_empty, nonempty, if◌then◌else◌,
}
use aerospike_prometheus_exp.Config.{
  Outcome, done, fatal, ◌>>=◌, AerospikeConfig, bad_root_ca, bad_certificate,
}
use aerospike_prometheus_exp.Commons.Secrets.{Sources, get_secret, get_certificate}

-- crypto/x509, crypto/tls and encoding/pem; `none` is an error.
pub record Crypto : Type 1 where
  pub Pool : Type 0
  pub Certificate : Type 0
  pub Block : Type 0
  pub system_pool : Pool
  pub append_pem : Pool → Bytes → Pool
  pub decode_pem : Bytes → Option Block
  pub is_encrypted : Block → Bool
  -- the block without its headers and with the bytes decrypted
  pub decrypt : Block → Bytes → Option Block
  pub encode_pem : Block → Option Bytes
  pub key_pair : Bytes → Bytes → Option Certificate

module _ (sources : Sources) (crypto : Crypto) where
  open crypto use {
    Pool, Certificate, Block, system_pool, append_pem, decode_pem, is_encrypted, decrypt,
    encode_pem, key_pair,
  }

  infixl 5 ◌>>?◌
  abbrev ◌>>?◌ : {A B : Type 0} → Option A → (A → Option B) → Option B
  none >>? f = none
  some a >>? f = f a

  -- In this file's functions of `Option`, `none` is the error.
  unfoldable pub load_ca_cert : Bytes → Option Pool
  load_ca_cert config =
      if nonempty config
      then (get_certificate sources config >>? λ cert. some (append_pem system_pool cert))
      else some system_pool

  decrypt_key : Bytes → Block → Option Block
  decrypt_key passphrase block =
      if is_encrypted block then get_secret sources passphrase >>? decrypt block else some block

  unfoldable pub load_server_cert_and_key : Bytes → Bytes → Bytes → Option (List Certificate)
  unfolding decrypt_key
  load_server_cert_and_key cert key passphrase = get_certificate sources cert >>? λ cert_bytes.
      get_certificate sources key >>? λ key_bytes. decode_pem key_bytes >>? λ block.
      decrypt_key passphrase block >>? λ clear.
      encode_pem clear >>? λ key_pem. key_pair cert_bytes key_pem >>? λ pair. some (pair ∷ [])

  or_fatal : {A : Type 0} → Option A → Outcome A → Outcome A
  or_fatal none e = e
  or_fatal (some a) e = done a

  client_certificates : AerospikeConfig → Outcome (Option (List Certificate))
  unfolding or_fatal
  client_certificates c =
      if nonempty c.cert_file || nonempty c.key_file
      then (or_fatal (load_server_cert_and_key c.cert_file c.key_file c.key_file_passphrase)
            (fatal bad_certificate)
          >>= λ certs. done (some certs))
      else done none

  -- The pool of the server's and the certificates of the client, `none` where they are nil.
  unfoldable pub load_server_or_client_certificates :
      AerospikeConfig → Outcome (Option Pool × Option (List Certificate))
  unfolding client_certificates or_fatal
  load_server_or_client_certificates c =
      if is_empty c.root_ca && (is_empty c.cert_file && is_empty c.key_file)
      then done (none, none)
      else or_fatal (load_ca_cert c.root_ca) (fatal bad_root_ca) >>= λ pool.
          client_certificates c >>= λ certs. done (some pool, certs)
