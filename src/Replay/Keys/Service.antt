-- ===== src/Replay/Keys/Service.antt =====
-- What a request line names when it counts as a gRPC call (grpc_match.go).
use bug_it.Base.{
  ℕ, zero, suc, ◌+◌, ◌≡◌, ◌≢◌, ap, sym, subst, ◌∙◌, List, [], ◌∷◌, ◌++◌, none, some, if◌then◌else◌,
  take, drop, arith, Bool-cases, Option-cases, inl, inr,
}
use bug_it.Text.{Bytes, codes, bytes_eq, bytes_eq_sound, trim_prefix}
use bug_it.Text.Search.{last_index_byte, Lacks}
use bug_it.Text.Trim.{fields}
use bug_it.Replay.Keys.{first_line, split_service, grpc_unary_of, match_grpc_unary}

last_none : (s : Bytes) (d : ℕ) → last_index_byte s d ≡ none → Lacks d s
unfolding last_index_byte
last_none [] d h = tt
last_none (c ∷ s) d h = elim (Option-cases (last_index_byte s d)) [
  | inl e ↦ ((λ same. ground arith), last_none s d e)
  | inr (i, e) ↦ ground arith
]

later_some :
    (c : ℕ) (s : Bytes) (d i : ℕ)
    → last_index_byte (c ∷ s) d ≡ some (suc i)
    → last_index_byte s d ≡ some i
unfolding last_index_byte
later_some c s d i h = elim (Option-cases (last_index_byte s d)) [
  | inl e ↦ ground arith
  | inr (j, e) ↦ ground arith
]

first_some :
    (c : ℕ) (s : Bytes) (d : ℕ)
    → last_index_byte (c ∷ s) d ≡ some 0
    → (c ≡ d) × (last_index_byte s d ≡ none)
unfolding last_index_byte
first_some c s d h = elim (Option-cases (last_index_byte s d)) [
  | inl e ↦ ground arith
  | inr (j, e) ↦ ground arith
]

last_some :
    (s : Bytes) (d i : ℕ)
    → last_index_byte s d ≡ some i
    → (s ≡ take i s ++ d ∷ drop (suc i) s) × Lacks d (drop (suc i) s)
last_some [] d i h = unfold last_index_byte in absurd (cc)
last_some (c ∷ s) d zero h =
    let (same, e) = first_some c s d h in (ap (λ x. x ∷ s) same, last_none s d e)
last_some (c ∷ s) d (suc i) h =
    let (split, lacks) = last_some s d i (later_some c s d i h) in (ap (λ r. c ∷ r) split, lacks)

split_found :
    (path service method : Bytes) (i : ℕ)
    → last_index_byte path b'/' ≡ some (suc i)
    → split_service path ≡ some (service, method)
    → (service ≡ take (suc i) path) × (method ≡ drop (suc (suc i)) path)
unfolding split_service
split_found path service method i e h =
    let next : suc i + 1 ≡ suc (suc i) = omega arith in ground arith

front_suc :
    (path : Bytes) (i : ℕ) → last_index_byte path b'/' ≡ some (suc i) → take (suc i) path ≢ []
front_suc [] i e = unfold last_index_byte in absurd (cc)
front_suc (c ∷ path) i e = λ z. cc

split_service-lem :
    (path service method : Bytes)
    → split_service path ≡ some (service, method)
    → (path ≡ service ++ b'/' ∷ method) × (service ≢ []) × Lacks b'/' method
split_service-lem path service method h = elim (Option-cases (last_index_byte path b'/')) [
  | inl e ↦ unfold split_service in ground arith
  | inr (zero, e) ↦ unfold split_service in ground arith
  | inr (suc i, e) ↦
      let (s, m) = split_found path service method i e h in
      let (split, lacks) = last_some path b'/' (suc i) e in
      (rw (s, m) split, (λ z. front_suc path i e (sym s ∙ z)), rw m lacks)
]

unary_path :
    (words : List Bytes) (service method : Bytes)
    → grpc_unary_of words ≡ some (service, method)
    → (path : Bytes) × (rest : List Bytes) × (words ≡ codes "POST" ∷ path ∷ rest)
      × (trim_prefix path (codes "/") ≡ service ++ b'/' ∷ method)
      × (service ≢ [])
      × Lacks b'/' method
unary_path [] service method h = unfold grpc_unary_of in absurd (cc)
unary_path (word ∷ []) service method h = unfold grpc_unary_of in absurd (cc)
unary_path (word ∷ path ∷ rest) service method h =
    elim (Bool-cases (bytes_eq word (codes "POST"))) [
      | inr other ↦
          unfold grpc_unary_of in
          absurd (
            subst
              (λ b.
                (if b then split_service (trim_prefix path (codes "/")) else none)
                  ≡ some (service, method)
                → ⊥)
              (sym other) (λ e. cc) h)
      | inl post ↦
          let e = bytes_eq_sound word (codes "POST") post in
          let found : split_service (trim_prefix path (codes "/")) ≡ some (service, method) =
            unfold grpc_unary_of in
            subst
              (λ b.
                (if b then split_service (trim_prefix path (codes "/")) else none)
                ≡ some (service, method))
              post h in
          let (split, full, lacks) = split_service-lem _ service method found in
          (path, rest, ap (λ w. w ∷ path ∷ rest) e, split, full, lacks)
    ]

-- A request that counts as a gRPC call is a `POST` whose path, without the slash in front, is the service,
-- a slash and the method; the service is not empty and the method has no slash.
pub match_grpc_unary-path :
    (request service method : Bytes)
    → match_grpc_unary request ≡ some (service, method)
    → (path : Bytes) × (rest : List Bytes) × (fields (first_line request)
        ≡ codes "POST" ∷ path ∷ rest)
      × (trim_prefix path (codes "/") ≡ service ++ b'/' ∷ method)
      × (service ≢ [])
      × Lacks b'/' method
unfolding match_grpc_unary
match_grpc_unary-path request service method h =
    unary_path (fields (first_line request)) service method h
