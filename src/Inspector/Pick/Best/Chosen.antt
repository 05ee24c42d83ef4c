-- ===== src/Inspector/Pick/Best/Chosen.antt =====
-- The target that is chosen (pkg/captureattach/cdp_session.go).
use bug_it.Base.{
  ℕ, ℤ, pos, negsuc, ◌≡◌, refl, subst, sym, inl, inr, true, false, ◌||◌, List, [], ◌∷◌, Option,
  none, some, if◌then◌else◌, ltb_ℤ, leb_ℤ, All, All-append, arith, Bool-cases,
}
use bug_it.Text.{bytes_eq}
use bug_it.Inspector.{
  min_backend_target_score, InspectTarget, TargetPickOptions, BackendInspector, PortTarget,
  is_empty_text, score_target,
}
use bug_it.Inspector.Pick.{no_inspector, snapshot_port_targets, resolve_backend_inspector}
use bug_it.Inspector.Pick.Best.{
  FirstBest, IsBelow, IsAtMost, lt_trans, le-lt_trans, Loop, best_of-Loop,
}

-- Only a target with an address scores.
score_target-url :
    (t : InspectTarget) (opts : TargetPickOptions)
    → ltb_ℤ (negsuc 0) (score_target t opts) ≡ true
    → is_empty_text t.web_socket_debugger_url ≡ false
unfolding score_target
score_target-url t opts h = elim (Bool-cases (is_empty_text t.web_socket_debugger_url)) [
  | inl e ↦ absurd (ground arith)
  | inr e ↦ e
]

-- What the choice among `pts` promises.
abbrev pub Choice : TargetPickOptions → List PortTarget → Option BackendInspector → Type 0
Choice opts pts none = All (IsBelow opts min_backend_target_score) pts
Choice opts pts (some best) =
    FirstBest opts pts best
    × (leb_ℤ min_backend_target_score best.score ≡ true)
    × (is_empty_text best.web_socket_url ≡ false)

low-IsBelow :
    (opts : TargetPickOptions) (pts : List PortTarget)
    → All (IsAtMost opts (negsuc 0)) pts
    → All (IsBelow opts min_backend_target_score) pts
low-IsBelow opts [] h = tt
low-IsBelow opts (pt ∷ pts) (h, hs) =
    (le-lt_trans (score_target pt.target opts) (negsuc 0) (pos 25) h refl, low-IsBelow opts pts hs)

IsBelow-trans :
    (opts : TargetPickOptions) (s : ℤ) (pts : List PortTarget)
    → ltb_ℤ s min_backend_target_score ≡ true
    → All (IsBelow opts s) pts
    → All (IsBelow opts min_backend_target_score) pts
IsBelow-trans opts s [] h hs = tt
IsBelow-trans opts s (pt ∷ pts) h (b, bs) =
    (lt_trans (score_target pt.target opts) s (pos 25) b h, IsBelow-trans opts s pts h bs)

at_most_trans :
    (opts : TargetPickOptions) (s : ℤ) (pts : List PortTarget)
    → ltb_ℤ s min_backend_target_score ≡ true
    → All (IsAtMost opts s) pts
    → All (IsBelow opts min_backend_target_score) pts
at_most_trans opts s [] h hs = tt
at_most_trans opts s (pt ∷ pts) h (b, bs) =
    (le-lt_trans (score_target pt.target opts) s (pos 25) b h, at_most_trans opts s pts h bs)

-- Where the best scores too little, all do.
FirstBest-IsBelow :
    (opts : TargetPickOptions) (pts : List PortTarget) (best : BackendInspector)
    → FirstBest opts pts best
    → ltb_ℤ best.score min_backend_target_score ≡ true
    → All (IsBelow opts min_backend_target_score) pts
FirstBest-IsBelow opts pts best f h =
    let low : ltb_ℤ (score_target f.chosen.target opts) min_backend_target_score ≡ true =
      subst (λ i. ltb_ℤ i.score min_backend_target_score ≡ true) f.same h in
    subst (All (IsBelow opts min_backend_target_score)) (sym f.split) (
      All-append (IsBelow opts min_backend_target_score) f.before (f.chosen ∷ f.after)
        (IsBelow-trans opts (score_target f.chosen.target opts) f.before low f.lower)
        (low, at_most_trans opts (score_target f.chosen.target opts) f.after low f.no_higher))

pub FirstBest-url :
    (opts : TargetPickOptions) (pts : List PortTarget) (best : BackendInspector)
    → FirstBest opts pts best
    → ltb_ℤ (negsuc 0) best.score ≡ true
    → is_empty_text best.web_socket_url ≡ false
FirstBest-url opts pts best f h =
    subst (λ i. is_empty_text i.web_socket_url ≡ false) (sym f.same)
      (score_target-url f.chosen.target opts
        (subst (λ i. ltb_ℤ (negsuc 0) i.score ≡ true) f.same h))

-- The decision behind the loop.
abbrev decide : BackendInspector → Option BackendInspector
decide best =
    if is_empty_text best.web_socket_url || ltb_ℤ best.score min_backend_target_score
    then none
    else some best

not-below : (s : ℤ) → ltb_ℤ s (pos 25) ≡ false → leb_ℤ (pos 25) s ≡ true
not-below s h = ground arith

decide-Choice :
    (opts : TargetPickOptions) (pts : List PortTarget) (best : BackendInspector)
    → Loop opts no_inspector pts best
    → Choice opts pts (decide best)
decide-Choice opts pts best (inl (same, low)) =
    subst (λ b. Choice opts pts (decide b)) (sym same) (unfold bytes_eq in low-IsBelow opts pts low)
decide-Choice opts pts best (inr (f, up)) =
    let full = FirstBest-url opts pts best f up in
    elim (Bool-cases (ltb_ℤ best.score min_backend_target_score)) [
      | inl e ↦ rw full (rw e (FirstBest-IsBelow opts pts best f e))
      | inr e ↦ rw full (rw e (f, not-below best.score e, full))
    ]

-- Whatever the inspectors on the eleven ports answer, `ResolveBackendInspector` returns the first target
-- that scores best: no target before it scores as much, none behind it more, and it scores at least 25
-- and has an address. It fails exactly where every target scores less than 25.
pub resolve_backend_inspector-Choice :
    (list_targets : ℕ → Option (List InspectTarget)) (opts : TargetPickOptions)
    → Choice opts (snapshot_port_targets list_targets) (resolve_backend_inspector list_targets opts)
unfolding resolve_backend_inspector
resolve_backend_inspector-Choice list_targets opts =
    decide-Choice opts (snapshot_port_targets list_targets) _
      (best_of-Loop opts no_inspector (snapshot_port_targets list_targets))
