-- ===== src/Stats/Xdr/Keys.antt =====
-- The keys that are asked for name their datacenter, namespace and kind.
use aerospike_prometheus_exp.Base.{
  ◌≡◌, refl, [], ◌∷◌, ◌++◌, Bytes, bytes, Free, lookup, none, equal, arith, ◌≢◌, ℕ, ◌⊎◌, inl, inr,
}
use aerospike_prometheus_exp.Commons.ParseStats.{
  parse_stats, lookup-parse_stats, IsPair, render, last_value,
}
use aerospike_prometheus_exp.Stats.Xdr.{key_xdr_stat, key_xdr_config, construct_metric_name_prefix}

abbrev semicolon : ℕ
semicolon = b';'

semicolon-ne-equals : semicolon ≢ b'='
semicolon-ne-equals = omega arith

-- The pair that begins every key.
abbrev head_pair : Bytes → Bytes × Bytes
head_pair kind = (kind, bytes "xdr")

abbrev config_kind : Bytes
config_kind = bytes "get-config:context"

abbrev stat_kind : Bytes
stat_kind = bytes "get-stats:context"

head-IsPair :
    (kind : Bytes) → (kind ≡ config_kind) ⊎ (kind ≡ stat_kind) → IsPair b';' (head_pair kind)
head-IsPair kind (inl e) = rw e (ground arith)
head-IsPair kind (inr e) = rw e (ground arith)

module _ (dc : Bytes) (dc_free : Free b';' dc) where
  dc-IsPair : IsPair b';' (bytes "dc", dc)
  dc-IsPair = (ground arith, ground arith, dc_free)

  lookup_dc :
      (kind k : Bytes)
      → (kind ≡ config_kind) ⊎ (kind ≡ stat_kind)
      → lookup k (parse_stats (render b';' (head_pair kind) ((bytes "dc", dc) ∷ [])) b';')
        ≡ last_value k none (head_pair kind ∷ (bytes "dc", dc) ∷ [])
  lookup_dc kind k h =
      lookup-parse_stats b';' k (head_pair kind) ((bytes "dc", dc) ∷ []) semicolon-ne-equals
        (head-IsPair kind h) (dc-IsPair, tt)

  dc_stat_key : construct_metric_name_prefix (key_xdr_stat ++ dc) ≡ (dc, [], [])
  unfolding construct_metric_name_prefix equal
  dc_stat_key = ground (
    arith,
    lookup_dc stat_kind (bytes "get-config:context") (inr refl),
    lookup_dc stat_kind (bytes "get-stats:context") (inr refl),
    lookup_dc stat_kind (bytes "dc") (inr refl),
    lookup_dc stat_kind (bytes "namespace") (inr refl),
  )

  dc_config_key : construct_metric_name_prefix (key_xdr_config ++ dc) ≡ (dc, [], bytes "dc_")
  unfolding construct_metric_name_prefix equal
  dc_config_key = ground (
    arith,
    lookup_dc config_kind (bytes "get-config:context") (inl refl),
    lookup_dc config_kind (bytes "get-stats:context") (inl refl),
    lookup_dc config_kind (bytes "dc") (inl refl),
    lookup_dc config_kind (bytes "namespace") (inl refl),
  )

  module _ (ns : Bytes) (ns_free : Free b';' ns) where
    ns-IsPair : IsPair b';' (bytes "namespace", ns)
    ns-IsPair = (ground arith, ground arith, ns_free)

    lookup_ns :
        (kind k : Bytes)
        → (kind ≡ config_kind) ⊎ (kind ≡ stat_kind)
        → lookup k (
            parse_stats
              (render b';' (head_pair kind) ((bytes "dc", dc) ∷ (bytes "namespace", ns) ∷ []))
              b';')
          ≡ last_value k none (head_pair kind ∷ (bytes "dc", dc) ∷ (bytes "namespace", ns) ∷ [])
    lookup_ns kind k h =
        lookup-parse_stats b';' k (head_pair kind) ((bytes "dc", dc) ∷ (bytes "namespace", ns) ∷ [])
          semicolon-ne-equals (head-IsPair kind h) (dc-IsPair, (ns-IsPair, tt))

    ns_stat_key :
        construct_metric_name_prefix (key_xdr_stat ++ (dc ++ (bytes ";namespace=" ++ ns)))
        ≡ (dc, ns, bytes "dc_namespace_")
    unfolding construct_metric_name_prefix equal
    ns_stat_key = ground (
      arith,
      lookup_ns stat_kind (bytes "get-config:context") (inr refl),
      lookup_ns stat_kind (bytes "get-stats:context") (inr refl),
      lookup_ns stat_kind (bytes "dc") (inr refl),
      lookup_ns stat_kind (bytes "namespace") (inr refl),
    )

    ns_config_key :
        construct_metric_name_prefix (key_xdr_config ++ (dc ++ (bytes ";namespace=" ++ ns)))
        ≡ (dc, ns, bytes "dc_namespace_")
    unfolding construct_metric_name_prefix equal
    ns_config_key = ground (
      arith,
      lookup_ns config_kind (bytes "get-config:context") (inl refl),
      lookup_ns config_kind (bytes "get-stats:context") (inl refl),
      lookup_ns config_kind (bytes "dc") (inl refl),
      lookup_ns config_kind (bytes "namespace") (inl refl),
    )

    -- Of the four keys that are asked for of a datacenter and a namespace, both free of `;`, each is
    -- taken apart into that datacenter, its namespace if it has one, and the prefix for its level:
    -- none for a datacenter's statistics, `dc_` for its settings, and `dc_namespace_` for both kinds
    -- of a namespace.
    pub construct_metric_name_prefix-keys :
        (construct_metric_name_prefix (key_xdr_stat ++ dc) ≡ (dc, [], []))
        × (construct_metric_name_prefix (key_xdr_config ++ dc) ≡ (dc, [], bytes "dc_"))
        × (construct_metric_name_prefix (key_xdr_config ++ (dc ++ (bytes ";namespace=" ++ ns)))
            ≡ (dc, ns, bytes "dc_namespace_"))
        × (construct_metric_name_prefix (key_xdr_stat ++ (dc ++ (bytes ";namespace=" ++ ns)))
            ≡ (dc, ns, bytes "dc_namespace_"))
    construct_metric_name_prefix-keys = (dc_stat_key, dc_config_key, ns_config_key, ns_stat_key)
