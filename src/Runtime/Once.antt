-- ===== src/Runtime/Once.antt =====
-- The option that starts the inspector is set once (pkg/runtimedetect/detect.go).
use bug_it.Base.{
  ℕ, suc, ◌+◌, ◌≡◌, refl, ◌∙◌, List, [], ◌∷◌, ◌++◌, if◌then◌else◌, arith, Bool-cases, inl, inr,
}
use bug_it.Text.{Bytes, codes, has_prefix}
use bug_it.Runtime.{
  Runtime, node, go, python, unknown, node_options, env_adjustments, clean_env, capture_env,
}

-- How many entries set the option.
abbrev pub settings : List Bytes → ℕ
settings [] = 0
settings (e ∷ env) = let n = settings env in if has_prefix e node_options then suc n else n

settings-append : (xs ys : List Bytes) → settings (xs ++ ys) ≡ settings xs + settings ys
settings-append [] ys = omega arith
settings-append (e ∷ xs) ys = ground (arith, settings-append xs ys)

settings-clean_env : (env : List Bytes) → settings (clean_env env) ≡ 0
unfolding clean_env
settings-clean_env [] = refl
settings-clean_env (e ∷ env) = elim (Bool-cases (has_prefix e node_options)) [
  | inl k ↦ rw k (settings-clean_env env)
  | inr k ↦ rw k (rw k (settings-clean_env env))
]

-- How often the option is to be set.
abbrev pub wanted : Runtime → ℕ
wanted node = 1
wanted _ = 0

settings-added :
    (port : Bytes) (runtime : Runtime) (inspect_port : Bytes)
    → settings (
        (codes "PORT=" ++ port)
        ∷ codes "BUGIT_RECORD_PROXY=http://127.0.0.1:28082"
        ∷ codes "HTTP_PROXY=http://127.0.0.1:28082"
        ∷ codes "HTTPS_PROXY=http://127.0.0.1:28082"
        ∷ env_adjustments runtime inspect_port)
      ≡ wanted runtime
unfolding env_adjustments has_prefix
settings-added port node inspect_port = refl
settings-added port go inspect_port = refl
settings-added port python inspect_port = refl
settings-added port unknown inspect_port = refl

-- Whatever the environment of the command holds, the captured process gets `NODE_OPTIONS` exactly once if it is
-- a Node process, and never otherwise.
pub capture_env-settings :
    (env : List Bytes) (port : Bytes) (runtime : Runtime) (inspect_port : Bytes)
    → settings (capture_env env port runtime inspect_port) ≡ wanted runtime
unfolding capture_env
capture_env-settings env port runtime inspect_port =
    let all = settings-append (clean_env env) _ in
    let cleaned = settings-clean_env env in
    let added = settings-added port runtime inspect_port in all ∙ (omega arith)
