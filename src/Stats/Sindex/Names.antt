-- ===== src/Stats/Sindex/Names.antt =====
-- The names inside an index's command are those that it was made from.
use aerospike_prometheus_exp.Base.{
  ◌≡◌, ◌++◌, Bytes, bytes, Free, All-append, split-Free, split-append, ok, arith,
}
use aerospike_prometheus_exp.Stats.Sindex.{get_namespace_and_sindex_name}

-- A name free of the marks `:`, `;` and `=` of the commands.
pub record IsName (s : Bytes) : Type 0 where
  pub no_colon : Free b':' s
  pub no_semicolon : Free b';' s
  pub no_equals : Free b'=' s

-- A command that was made for a namespace and an index, whose names are free of `:`, `;` and `=`,
-- is taken apart into those two names, and this does not panic.
pub get_namespace_and_sindex_name-command :
    (ns name : Bytes)
    → IsName ns
    → IsName name
    → get_namespace_and_sindex_name
        (bytes "sindex-stat:namespace=" ++ (ns ++ (bytes ";indexname=" ++ name)))
      ≡ ok (ns, name)
unfolding get_namespace_and_sindex_name
get_namespace_and_sindex_name-command ns name p q =
    let infos : Bytes = bytes "namespace=" ++ (ns ++ (bytes ";indexname=" ++ name)) in
    rw (split-append b':' (bytes "sindex-stat") infos (ground arith)) (
      rw
        (split-Free b':' infos (
          All-append _ (bytes "namespace=") _ (ground arith) (
            All-append _ ns _ p.no_colon
              (All-append _ (bytes ";indexname=") _ (ground arith) q.no_colon))))
        (rw
          (split-append b';' (bytes "namespace=" ++ ns) (bytes "indexname=" ++ name)
            (All-append _ (bytes "namespace=") ns (ground arith) p.no_semicolon))
          (rw
            (split-Free b';' (bytes "indexname=" ++ name)
              (All-append _ (bytes "indexname=") name (ground arith) q.no_semicolon))
            (rw (split-append b'=' (bytes "namespace") ns (ground arith)) (
              rw (split-Free b'=' ns p.no_equals) (
                rw (split-append b'=' (bytes "indexname") name (ground arith))
                  (rw (split-Free b'=' name q.no_equals))))))))
