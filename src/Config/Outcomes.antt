-- ===== src/Config/Outcomes.antt =====
-- Code that runs before the exporter serves: it goes on, exits by `log.Fatal`, or panics.
use aerospike_prometheus_exp.Base.{◌≡◌, refl, Bool, true, false}

-- The `log.Fatal` calls of config.go, otel_metrics.go, utils.go and aero_server.go, by what they
-- report.
pub data Fatal : Type 0 where
  whitelist_and_allowlist blacklist_and_blocklist : Fatal
  key_file_missing cert_file_missing root_ca_missing nothing_enabled : Fatal
  endpoint_and_grpc grpc_and_http no_endpoint bad_temporality bad_separator : Fatal
  no_instrument : Fatal
  bad_root_ca bad_certificate bad_user bad_password no_pki_certificate bad_auth_mode : Fatal

pub data Outcome {ℓ} (A : Type ℓ) : Type ℓ where
  done : A → Outcome A
  fatal : Fatal → Outcome A
  panics : Outcome A

infixl 5 ◌>>=◌ ◌>>◌
abbrev pub ◌>>=◌ {ℓ κ} : {A : Type ℓ} {B : Type κ} → Outcome A → (A → Outcome B) → Outcome B
done a >>= f = f a
fatal w >>= f = fatal w
panics >>= f = panics

abbrev pub ◌>>◌ {ℓ} : {B : Type ℓ} → Outcome (Unit {0}) → Outcome B → Outcome B
m >> k = m >>= λ _. k

-- `if bad { log.Fatal(...) }`
abbrev pub fatal_if : Bool → Fatal → Outcome (Unit {0})
fatal_if true w = fatal w
fatal_if false w = done tt

pub >>=-eq-done {ℓ κ} :
    {A : Type ℓ} {B : Type κ} (m : Outcome A) (f : A → Outcome B) {b : B}
    → (m >>= f) ≡ done b
    → (a : A) × (m ≡ done a) × (f a ≡ done b)
>>=-eq-done (done a) f h = (a, refl, h)
>>=-eq-done (fatal w) f h = cc
>>=-eq-done panics f h = cc

pub done-injective {ℓ} : {A : Type ℓ} {a b : A} → done a ≡ done b → a ≡ b
done-injective h = cc
