-- ===== src/LocalCapture/Services/Ports.antt =====
-- Which services a replay gets, and their ports (replayconfig.go).
use bug_it.Base.{
  ℕ, suc, eq_ℤ, ◌≡◌, refl, ap, ap₂, sym, ◌∙◌, subst, Bool, true, false, not, ◌&&◌, ◌||◌, List, [],
  ◌∷◌, some, if◌then◌else◌, arith, All, Bool-cases, inl, inr, map, take, eq_ℤ_sound, &&-cases,
}
use bug_it.Text.{Bytes, bytes_eq, bytes_eq_sound}
use bug_it.IoEvent.{IoEvent, IsBounded, payload_of_within}
use bug_it.LocalCapture.Services.{
  Key, key_eq, see, ReplayService, service_of, split_service_host, keyed_services, parse_http_host,
  hosts_of, services,
}

-- How often a key is served.
abbrev pub count : Key → List (Key × ReplayService) → ℕ
count k [] = 0
count k (s ∷ rest) = let n = count k rest in if key_eq k s.0 then suc n else n

-- Some host has the key.
abbrev pub has_key : Key → List Bytes → Bool
has_key k [] = false
has_key k ([] ∷ hosts) = has_key k hosts
has_key k ((c ∷ host) ∷ hosts) = key_eq k (split_service_host (c ∷ host)) || has_key k hosts

-- The ports go up one by one.
abbrev pub Consecutive : ℕ → List (Key × ReplayService) → Type 0
Consecutive port [] = Unit
Consecutive port (s ∷ rest) =
    (s.1.local_port ≡ port) × (s.1 ≡ service_of s.0 port) × Consecutive (suc port) rest

known_eq :
    (seen : Key → Bool) (port c : ℕ) (host : Bytes) (hosts : List Bytes)
    → seen (split_service_host (c ∷ host)) ≡ true
    → keyed_services seen port ((c ∷ host) ∷ hosts) ≡ keyed_services seen port hosts
unfolding keyed_services
known_eq seen port c host hosts e = rw e

fresh_eq :
    (seen : Key → Bool) (port c : ℕ) (host : Bytes) (hosts : List Bytes)
    → seen (split_service_host (c ∷ host)) ≡ false
    → let key = split_service_host (c ∷ host) in
      keyed_services seen port ((c ∷ host) ∷ hosts)
      ≡ (key, service_of key port) ∷ keyed_services (see seen key) (suc port) hosts
unfolding keyed_services
fresh_eq seen port c host hosts e = rw e

empty_eq :
    (seen : Key → Bool) (port : ℕ) (hosts : List Bytes)
    → keyed_services seen port ([] ∷ hosts) ≡ keyed_services seen port hosts
unfolding keyed_services
empty_eq seen port hosts = refl

keyed_services-Consecutive :
    (seen : Key → Bool) (port : ℕ) (hosts : List Bytes)
    → Consecutive port (keyed_services seen port hosts)
keyed_services-Consecutive seen port [] = unfold keyed_services in tt
keyed_services-Consecutive seen port ([] ∷ hosts) =
    subst (Consecutive port) (sym (empty_eq seen port hosts))
      (keyed_services-Consecutive seen port hosts)
keyed_services-Consecutive seen port ((c ∷ host) ∷ hosts) =
    let key = split_service_host (c ∷ host) in
    elim (Bool-cases (seen key)) [
      | inl old ↦
          subst (Consecutive port) (sym (known_eq seen port c host hosts old))
            (keyed_services-Consecutive seen port hosts)
      | inr new ↦ subst (Consecutive port) (sym (fresh_eq seen port c host hosts new)) (
        (unfold service_of in refl),
        refl,
        keyed_services-Consecutive (see seen key) (suc port) hosts,
      )
    ]

key_eq_sound : (a b : Key) → key_eq a b ≡ true → a ≡ b
key_eq_sound (h, p) (h', p') e =
    let (host, port) = &&-cases (bytes_eq h h') (eq_ℤ p p') e in
    ap₂ (λ x y. (x, y)) (bytes_eq_sound h h' host) (eq_ℤ_sound p p' port)

-- The cases of one host, by whether its key is the one that is counted and whether it is known.
count_host :
    (same known known_k rest : Bool) (n n' : ℕ)
    → (same ≡ true → known ≡ known_k)
    → n ≡ (if rest && not known_k then 1 else 0)
    → n' ≡ (if rest && not (if same then true else known_k) then 1 else 0)
    → (if known then n else if same then suc n' else n')
      ≡ (if (same || rest) && not known_k then 1 else 0)
count_host true true known_k rest n n' h e e' = let k = h refl in ground arith
count_host true false known_k rest n n' h e e' = let k = h refl in ground arith
count_host false true known_k rest n n' h e e' = e
count_host false false known_k rest n n' h e e' = e'

count_step :
    (k : Key) (seen : Key → Bool) (port c : ℕ) (host : Bytes) (hosts : List Bytes)
    → let key = split_service_host (c ∷ host) in
      let behind = count k (keyed_services (see seen key) (suc port) hosts) in
      count k (keyed_services seen port ((c ∷ host) ∷ hosts)) ≡ (
        if seen key
        then count k (keyed_services seen port hosts)
        else if key_eq k key
        then suc behind
        else behind)
count_step k seen port c host hosts =
    let key = split_service_host (c ∷ host) in
    let behind = count k (keyed_services (see seen key) (suc port) hosts) in
    elim (Bool-cases (seen key)) [
      | inl old ↦ rw old (ap (count k) (known_eq seen port c host hosts old))
      | inr new ↦ rw new (ap (count k) (fresh_eq seen port c host hosts new))
    ]

keyed_services-count :
    (k : Key) (seen : Key → Bool) (port : ℕ) (hosts : List Bytes)
    → count k (keyed_services seen port hosts) ≡ (if has_key k hosts && not (seen k) then 1 else 0)
keyed_services-count k seen port [] = unfold keyed_services in refl
keyed_services-count k seen port ([] ∷ hosts) =
    ap (count k) (empty_eq seen port hosts) ∙ keyed_services-count k seen port hosts
keyed_services-count k seen port ((c ∷ host) ∷ hosts) =
    let key = split_service_host (c ∷ host) in
    count_step k seen port c host hosts
    ∙ count_host (key_eq k key) (seen key) (seen k) (has_key k hosts)
        (count k (keyed_services seen port hosts))
        (count k (keyed_services (see seen key) (suc port) hosts))
        (λ same. ap seen (sym (key_eq_sound k key same))) (keyed_services-count k seen port hosts)
        (keyed_services-count k (see seen key) (suc port) hosts)

hosts_of-total :
    (events : List IoEvent)
    → All IsBounded events
    → hosts_of events ≡ some (map (λ ev. parse_http_host (take ev.payload_len ev.payload)) events)
unfolding hosts_of
hosts_of-total [] h = refl
hosts_of-total (ev ∷ events) (b, h) =
    rw (payload_of_within ev b) (rw (hosts_of-total events h) refl)

-- Of events with lengths inside their payloads, the services are found without a panic: each host and port
-- that an event names has one service and no other has any, and their local ports go up one by one from 18081.
pub services-count :
    (events : List IoEvent)
    → All IsBounded events
    → let hosts = map (λ ev. parse_http_host (take ev.payload_len ev.payload)) events in
      (found : List (Key × ReplayService)) × (services events ≡ some found)
      × Consecutive 18081 found
      × ((k : Key) → count k found ≡ (if has_key k hosts then 1 else 0))
unfolding services
services-count events h =
    let hosts = map (λ ev. parse_http_host (take ev.payload_len ev.payload)) events in
    (
      keyed_services (λ k. false) 18081 hosts,
      rw (hosts_of-total events h) refl,
      keyed_services-Consecutive (λ k. false) 18081 hosts,
      λ k. keyed_services-count k (λ k. false) 18081 hosts ∙ ground arith,
    )
