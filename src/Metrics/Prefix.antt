-- ===== src/Metrics/Prefix.antt =====
-- The prefix of the metrics in Graphite (metrics/graphite.go).
use mesos_executor.Common.{
  [], ◌∷◌, ◌++◌, map, Str, split, split-append, split-single, replace_all-byte, false, ◌==◌,
  if◌then◌else◌, Result, ok, ◌≡◌, refl, sym, ap, ◌∙◌, All, arith, subst,
}
use mesos_executor.Runenv.{Getenv, hostname}
use mesos_executor.Metrics.{normalize_value, dotted, build_unique_prefix}

-- A value without dots.
abbrev pub HasNoDot : Str → Type 0
HasNoDot s = All (λ c. (c == b'.') ≡ false) s

undotted : (s : Str) → HasNoDot (map (λ c. if c == b'.' then b'_' else c) s)
undotted [] = tt
undotted (c ∷ s) = (ground arith, undotted s)

normalize_value-HasNoDot : (value : Str) → HasNoDot (normalize_value value)
unfolding normalize_value
normalize_value-HasNoDot value =
    subst (λ s. HasNoDot s) (sym (replace_all-byte b'.' b'_' value)) (undotted value)

-- The prefix, cut at its dots: the parts of the base prefix, the host and the id, each of the two
-- as one part whatever dots they have.
pub build_unique_prefix-split :
    (getenv : Getenv) (os_hostname : Result Str) (metrics_id base_prefix host : Str)
    → hostname getenv os_hostname ≡ ok host
    → (prefix : Str) × (build_unique_prefix getenv os_hostname metrics_id base_prefix ≡ ok prefix)
      × (split b'.' prefix
          ≡ split b'.' base_prefix ++ normalize_value host ∷ normalize_value metrics_id ∷ [])
unfolding build_unique_prefix dotted
build_unique_prefix-split getenv os_hostname metrics_id base_prefix host h =
    let host_part = normalize_value host in
    let id_part = normalize_value metrics_id in
    (
      base_prefix ++ b'.' ∷ (host_part ++ b'.' ∷ id_part),
      rw (h, build_unique_prefix) refl,
      split-append b'.' base_prefix (host_part ++ b'.' ∷ id_part)
          ∙ ap (λ parts. split b'.' base_prefix ++ parts)
              (split-append b'.' host_part id_part
                ∙ ap (λ parts. parts ++ split b'.' id_part)
                    (split-single b'.' host_part (normalize_value-HasNoDot host))
                ∙ ap (λ parts. host_part ∷ parts)
                    (split-single b'.' id_part (normalize_value-HasNoDot metrics_id))),
    )
