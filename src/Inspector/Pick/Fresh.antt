-- ===== src/Inspector/Pick/Fresh.antt =====
-- Targets that are new since an earlier look, and ports that are free (pkg/captureattach/cdp_session.go).
use bug_it.Base.{
  ℕ, zero, suc, ℤ, pos, negsuc, ◌+◌, ◌≤◌, ◌<◌, ◌≡◌, refl, subst, sym, ◌⊎◌, inl, inr, Bool, true,
  false, not, ◌&&◌, ◌==◌, List, [], ◌∷◌, Option, some, if◌then◌else◌, leb_ℤ, All, All-right, arith,
  Bool-cases,
}
use bug_it.Text.{bytes_eq}
use bug_it.Inspector.{
  min_new_target_score, inspector_port_min, inspector_port_max, default_backend_inspect_port,
  InspectTarget, TargetPickOptions, BackendInspector, PortTarget, is_empty_text, score_target,
}
use bug_it.Inspector.Pick.{
  best_of, no_inspector, target_identity, is_new_backend_target, identities, is_seen,
  unseen_targets, diff_new_targets, new_backend_targets, snapshot_port_targets,
  resolve_backend_inspector, resolve_backend_inspector_with_diff, free_port_from,
  find_free_inspector_port,
}
use bug_it.Inspector.Pick.Best.{FirstBest, Loop, best_of-Loop}
use bug_it.Inspector.Pick.Best.Chosen.{FirstBest-url}

-- A target that was not there before, on another port than 9229, with the score that a new one needs.
abbrev pub IsFresh : TargetPickOptions → List PortTarget → PortTarget → Type 0
IsFresh opts before pt =
    (is_seen (target_identity pt.port pt.target) (identities before) ≡ false)
    × ((pt.port == inspector_port_min) ≡ false)
    × (leb_ℤ min_new_target_score (score_target pt.target opts) ≡ true)

is_new_backend_target-cases :
    (port : ℕ) (t : InspectTarget) (opts : TargetPickOptions)
    → is_new_backend_target port t opts ≡ true
    → ((port == inspector_port_min) ≡ false)
      × (leb_ℤ min_new_target_score (score_target t opts) ≡ true)
unfolding is_new_backend_target
is_new_backend_target-cases port t opts h = ground arith

IsUnseen : List PortTarget → PortTarget → Type 0
IsUnseen before pt = is_seen (target_identity pt.port pt.target) (identities before) ≡ false

unseen_targets-All :
    (before after : List PortTarget)
    → All (IsUnseen before) (unseen_targets (identities before) after)
unfolding unseen_targets IsUnseen
unseen_targets-All before [] = tt
unseen_targets-All before (pt ∷ after) =
    let rest = unseen_targets-All before after in
    elim (Bool-cases (is_seen (target_identity pt.port pt.target) (identities before))) [
      | inl e ↦ rw e rest
      | inr e ↦ rw e (e, rest)
    ]

new_backend_targets-All :
    (opts : TargetPickOptions) (before pts : List PortTarget)
    → All (IsUnseen before) pts
    → All (IsFresh opts before) (new_backend_targets opts pts)
unfolding new_backend_targets IsUnseen
new_backend_targets-All opts before [] h = tt
new_backend_targets-All opts before (pt ∷ pts) (h, hs) =
    let rest = new_backend_targets-All opts before pts hs in
    elim (Bool-cases (is_new_backend_target pt.port pt.target opts)) [
      | inl e ↦ rw e (
        (
          h,
          (is_new_backend_target-cases pt.port pt.target opts e).0,
          (is_new_backend_target-cases pt.port pt.target opts e).1,
        ),
        rest,
      )
      | inr e ↦ rw e rest
    ]

-- The choice between the new targets and the whole scan.
abbrev decide_new : BackendInspector → Option BackendInspector → Option BackendInspector
decide_new best fallback =
    if not (is_empty_text best.web_socket_url) && leb_ℤ min_new_target_score best.score
    then some best
    else fallback

-- What `ResolveBackendInspectorWithDiff` promises on its new targets.
abbrev pub NewChoice :
    TargetPickOptions → List PortTarget → Option BackendInspector → Option BackendInspector → Type 0
NewChoice opts pts fallback result =
    ((pts ≡ []) × (result ≡ fallback))
    ⊎ ((best : BackendInspector) × FirstBest opts pts best
        × (result ≡ some best)
        × (leb_ℤ min_new_target_score best.score ≡ true))

fits-le : (s : ℤ) → leb_ℤ (pos 15) s ≡ true → leb_ℤ s (negsuc 0) ≡ true → ⊥
fits-le s h k = ground arith

chosen-fits :
    (opts : TargetPickOptions) (before pts : List PortTarget) (best : BackendInspector)
    → All (IsFresh opts before) pts
    → FirstBest opts pts best
    → leb_ℤ min_new_target_score best.score ≡ true
chosen-fits opts before pts best all f =
    let there = subst (All (IsFresh opts before)) f.split all in
    subst (λ i. leb_ℤ min_new_target_score i.score ≡ true) (sym f.same)
      (All-right (IsFresh opts before) f.before (f.chosen ∷ f.after) there).0.2

decide_new-NewChoice :
    (opts : TargetPickOptions) (before pts : List PortTarget) (fallback : Option BackendInspector)
    (best : BackendInspector)
    → All (IsFresh opts before) pts
    → Loop opts no_inspector pts best
    → NewChoice opts pts fallback (decide_new best fallback)
decide_new-NewChoice opts before [] fallback best all (inl (same, low)) =
    inl (refl, rw same (unfold bytes_eq in refl))
decide_new-NewChoice opts before (pt ∷ pts) fallback best all (inl (same, low)) =
    absurd (fits-le (score_target pt.target opts) all.0.2 low.0)
decide_new-NewChoice opts before pts fallback best all (inr (f, up)) =
    let fits = chosen-fits opts before pts best all f in
    inr (best, f, rw (FirstBest-url opts pts best f up) (rw fits refl), fits)

-- Every target that `ResolveBackendInspectorWithDiff` takes for a new backend was not among the targets of
-- the earlier look, is not on port 9229 and scores at least 15. If there are such targets it returns the
-- first that scores best; if there are none it returns what the whole scan of the ports returns.
pub resolve_backend_inspector_with_diff-NewChoice :
    (list_targets : ℕ → Option (List InspectTarget)) (before : List PortTarget)
    (opts : TargetPickOptions)
    → let new_targets =
        new_backend_targets opts (diff_new_targets before (snapshot_port_targets list_targets)) in
      All (IsFresh opts before) new_targets
      × NewChoice opts new_targets
          (resolve_backend_inspector list_targets opts)
          (resolve_backend_inspector_with_diff list_targets before opts)
unfolding resolve_backend_inspector_with_diff diff_new_targets
resolve_backend_inspector_with_diff-NewChoice list_targets before opts =
    let snap = snapshot_port_targets list_targets in
    let new_targets = new_backend_targets opts (unseen_targets (identities before) snap) in
    let fresh = new_backend_targets-All opts before _ (unseen_targets-All before snap) in
    (
      fresh,
      decide_new-NewChoice opts before new_targets (resolve_backend_inspector list_targets opts)
          (best_of opts no_inspector new_targets) fresh
          (best_of-Loop opts no_inspector new_targets),
    )

module _ (inspect_available : ℕ → Bool) where
  -- What the loop over `n` ports from `port` on finds.
  free_port_from-cases :
      (n port : ℕ)
      → let found = free_port_from inspect_available n port in
        ((port ≤ found) × (found < port + n) × (inspect_available found ≡ false))
        ⊎ ((found ≡ default_backend_inspect_port)
            × ((p : ℕ) → port ≤ p → p < port + n → inspect_available p ≡ true))
  unfolding free_port_from
  free_port_from-cases zero port = inr (refl, λ p h k. absurd (omega arith))
  free_port_from-cases (suc n) port = elim (Bool-cases (inspect_available port)) [
    | inr e ↦ inl (ground arith)
    | inl e ↦ elim (free_port_from-cases n (suc port)) [
      | inl (low, high, free) ↦ inl (ground arith)
      | inr (same, busy) ↦ inr (
        ground arith,
        λ p h k. elim (Bool-cases (p == port)) [
          | inl here ↦ ground arith
          | inr later ↦ busy p (ground arith) (ground arith)
        ],
      )
    ]
  ]

-- `FindFreeInspectorPort` stays within the ports 9229 to 9239. The port it returns is free, unless all
-- eleven ports are in use.
pub find_free_inspector_port-cases :
    (inspect_available : ℕ → Bool)
    → let found = find_free_inspector_port inspect_available in
      (inspector_port_min ≤ found)
      × (found ≤ inspector_port_max)
      × ((inspect_available found ≡ false)
          ⊎ ((p : ℕ)
              → inspector_port_min ≤ p
              → p ≤ inspector_port_max
              → inspect_available p ≡ true))
unfolding find_free_inspector_port
find_free_inspector_port-cases inspect_available =
    elim (Bool-cases (inspect_available inspector_port_min)) [
      | inr e ↦ rw e (omega arith, omega arith, inl e)
      | inl e ↦ elim (free_port_from-cases inspect_available 10 9230) [
        | inl (low, high, free) ↦ rw e (omega arith, omega arith, inl free)
        | inr (same, busy) ↦ rw e (
          omega arith,
          omega arith,
          inr (λ p h k. elim (Bool-cases (p == inspector_port_min)) [
            | inl here ↦ ground arith
            | inr later ↦ busy p (ground arith) (omega arith)
          ]),
        )
      ]
    ]
