-- ===== src/Runenv/Hosts.antt =====
-- What Environment of runenv/runenv.go makes of a host name.
use mesos_executor.Common.{
  has_prefix-eq, has_prefix-append, ℕ, Option, none, some, [], ◌∷◌, ◌++◌, Str, codes, has_prefix,
  true, Bool-cases, Result, ok, err, panic, ◌≡◌, ◌≢◌, refl, sym, ap, subst, inl, inr, arith,
}
use mesos_executor.Runenv.{
  Getenv, Env, local_env, dev_env, test_env, prod_env, env_here, or_here, find_env, hostname,
  env_or_default, environment,
}

-- How an environment is marked in a host name.
abbrev pub mark : Env → Str
mark local_env = codes "-local."
mark dev_env = codes "-dev."
mark test_env = codes "-test."
mark prod_env = codes "-prod."

-- No mark but that of the local environment, which the program does not know, stands in the text.
abbrev pub IsUnmarked : Str → Type 0
IsUnmarked s = (e : Env) (before after : Str) → e ≢ local_env → s ≢ before ++ (mark e ++ after)

-- The last mark in the text is the one of `e`: behind its first character no other begins.
abbrev pub IsMarked : Str → Env → Type 0
IsMarked s e =
    (before : Str) × (c : ℕ) × (rest : Str) × (after : Str) × (s ≡ before ++ c ∷ rest)
    × (c ∷ rest ≡ mark e ++ after)
    × IsUnmarked rest

begins-marked :
    (s : Str) (e : Env) → has_prefix s (mark e) ≡ true → (after : Str) × (s ≡ mark e ++ after)
begins-marked s e h = has_prefix-eq s (mark e) h

marked-begins :
    (s : Str) (e : Env) (after : Str) → s ≡ mark e ++ after → has_prefix s (mark e) ≡ true
marked-begins s e after k =
    subst (λ x. has_prefix x (mark e) ≡ true) (sym k) (has_prefix-append (mark e) after)

some_inj : {e f : Env} → some e ≡ some f → e ≡ f
some_inj h = cc

marked_as :
    (s : Str) (e f : Env)
    → e ≢ local_env
    → has_prefix s (mark e) ≡ true
    → some e ≡ some f
    → (f ≢ local_env) × ((after : Str) × (s ≡ mark f ++ after))
marked_as s e f n h same =
    subst (λ g. (g ≢ local_env) × ((after : Str) × (s ≡ mark g ++ after))) (some_inj same)
      (n, begins-marked s e h)

env_here-some :
    (s : Str) (e : Env)
    → env_here s ≡ some e
    → (e ≢ local_env) × ((after : Str) × (s ≡ mark e ++ after))
unfolding env_here
env_here-some s e h = elim (Bool-cases (has_prefix s (mark prod_env))) [
  | inl prod ↦ marked_as s prod_env e (λ k. cc) prod (rw (prod, env_here) at h)
  | inr not_prod ↦ elim (Bool-cases (has_prefix s (mark test_env))) [
    | inl test ↦ marked_as s test_env e (λ k. cc) test (rw (not_prod, test, env_here) at h)
    | inr not_test ↦ elim (Bool-cases (has_prefix s (mark dev_env))) [
      | inl dev ↦ marked_as s dev_env e (λ k. cc) dev (rw (not_prod, not_test, dev, env_here) at h)
      | inr not_dev ↦ absurd (nothing (rw (not_prod, not_test, not_dev, env_here) at h))
    ]
  ]
]
  where
    nothing : none ≢ some e
    nothing k = cc

env_here-none :
    (s : Str) → env_here s ≡ none → (e : Env) (after : Str) → e ≢ local_env → s ≢ mark e ++ after
unfolding env_here
env_here-none s h local_env after n k = n refl
env_here-none s h prod_env after n k = ground (arith, marked-begins s prod_env after k)
env_here-none s h test_env after n k = ground (arith, marked-begins s test_env after k)
env_here-none s h dev_env after n k = ground (arith, marked-begins s dev_env after k)

-- What find_env finds in a text.
abbrev pub Found : Str → Option Env → Type 0
Found s none = IsUnmarked s
Found s (some e) = (e ≢ local_env) × IsMarked s e

IsUnmarked-nil : IsUnmarked []
IsUnmarked-nil local_env before after n = λ k. n refl
IsUnmarked-nil e [] after n = λ k. cc
IsUnmarked-nil e (b ∷ before) after n = λ k. cc

IsUnmarked-cons : (c : ℕ) (s : Str) → env_here (c ∷ s) ≡ none → IsUnmarked s → IsUnmarked (c ∷ s)
IsUnmarked-cons c s h u e [] after n = env_here-none (c ∷ s) h e after n
IsUnmarked-cons c s h u e (b ∷ before) after n = λ k. u e before after n (tail_eq k)
  where
    tail_eq : {x y : ℕ} {xs ys : Str} → x ∷ xs ≡ y ∷ ys → xs ≡ ys
    tail_eq k = cc

or_here-Found :
    (c : ℕ) (s : Str) (later here : Option Env)
    → env_here (c ∷ s) ≡ here
    → Found s later
    → Found (c ∷ s) (or_here later here)
unfolding or_here
or_here-Found c s (some e) here h (n, (b, x, rest, after, split, begins, u)) =
    (n, (c ∷ b, x, rest, after, ap (λ r. c ∷ r) split, begins, u))
or_here-Found c s none (some e) h u =
    let (n, (after, begins)) = env_here-some (c ∷ s) e h in (n, ([], c, s, after, refl, begins, u))
or_here-Found c s none none h u = IsUnmarked-cons c s h u

find_env-Found : (s : Str) → Found s (find_env s)
unfolding find_env
find_env-Found [] = IsUnmarked-nil
find_env-Found (c ∷ s) = or_here-Found c s (find_env s) (env_here (c ∷ s)) refl (find_env-Found s)

-- What Environment may return for a host name.
abbrev pub IsEnvironmentOf : Str → Result Env → Type 0
IsEnvironmentOf name (ok local_env) = IsUnmarked name
IsEnvironmentOf name (ok dev_env) = IsMarked name dev_env
IsEnvironmentOf name (ok test_env) = IsMarked name test_env
IsEnvironmentOf name (ok prod_env) = IsMarked name prod_env
IsEnvironmentOf name (err e) = ⊥
IsEnvironmentOf name panic = ⊥

default-IsEnvironmentOf :
    (name : Str) (found : Option Env)
    → Found name found
    → IsEnvironmentOf name (ok (env_or_default found))
unfolding env_or_default
default-IsEnvironmentOf name none h = h
default-IsEnvironmentOf name (some local_env) h = absurd (h.0 refl)
default-IsEnvironmentOf name (some dev_env) h = h.1
default-IsEnvironmentOf name (some test_env) h = h.1
default-IsEnvironmentOf name (some prod_env) h = h.1

-- Where the host name can be determined Environment returns, without an error, the environment of
-- the last mark -prod., -test. or -dev. in it, and the local environment exactly where it has none.
pub environment-IsEnvironmentOf :
    (getenv : Getenv) (os_hostname : Result Str) (name : Str)
    → hostname getenv os_hostname ≡ ok name
    → IsEnvironmentOf name (environment getenv os_hostname)
unfolding environment
environment-IsEnvironmentOf getenv os_hostname name h =
    let result : environment getenv os_hostname ≡ ok (env_or_default (find_env name)) =
      rw (h, environment) refl in
    subst (λ x. IsEnvironmentOf name x) (sym result)
      (default-IsEnvironmentOf name (find_env name) (find_env-Found name))
