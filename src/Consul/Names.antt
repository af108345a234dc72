-- ===== src/Consul/Names.antt =====
-- The service name that hook/consul/hook.go makes of a Marathon task id.
use mesos_executor.Common.{
  ℕ, List, [], ◌∷◌, map, Str, Bool, if◌then◌else◌, ◌==◌, split, join, trim_left, trim_right,
  trim_space,
}

is_slash : ℕ → Bool
is_slash c = c == b'/'

-- strings.NewReplacer("_", ".", "/", "-")
sanitize_byte : ℕ → ℕ
sanitize_byte c = if c == b'_' then b'.' else if c == b'/' then b'-' else c

but_last : List Str → List Str
but_last [] = []
but_last (s ∷ []) = []
but_last (s ∷ t ∷ ss) = s ∷ but_last (t ∷ ss)

-- Without a dot Split gives one part.
before_last_dot : Str → List Str → Str
unfolding but_last join
before_last_dot name (s ∷ t ∷ ss) = join b'.' (but_last (s ∷ t ∷ ss))
before_last_dot name (s ∷ []) = name
before_last_dot name [] = name

unfoldable pub marathon_app_name_to_service_name : Str → Str
unfolding trim_left trim_right trim_space is_slash sanitize_byte before_last_dot
marathon_app_name_to_service_name name =
    let spaceless = trim_space name in
    let trimmed = trim_right is_slash (trim_left is_slash spaceless) in
    let sanitized = map sanitize_byte trimmed in before_last_dot sanitized (split b'.' sanitized)
