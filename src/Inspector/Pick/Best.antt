-- ===== src/Inspector/Pick/Best.antt =====
-- The inspector that is chosen, and what it means that none is (pkg/captureattach/cdp_session.go).
pub mod Chosen
use bug_it.Base.{
  ℕ, ℤ, pos, negsuc, ◌≡◌, refl, ap, subst, sym, ◌⊎◌, inl, inr, true, false, ◌||◌, List, [], ◌∷◌,
  ◌++◌, Option, none, some, if◌then◌else◌, ltb_ℤ, leb_ℤ, All, All-append, arith, Bool-cases,
}
use bug_it.Text.{bytes_eq}
use bug_it.Inspector.{
  min_backend_target_score, InspectTarget, TargetPickOptions, BackendInspector, PortTarget,
  is_empty_text, score_target,
}
use bug_it.Inspector.Pick.{
  better, best_of, no_inspector, snapshot_port_targets, resolve_backend_inspector,
}

abbrev pub inspector_of : TargetPickOptions → PortTarget → BackendInspector
inspector_of opts pt = record {
  port = pt.port;
  web_socket_url = pt.target.web_socket_debugger_url;
  title = pt.target.title;
  url = pt.target.url;
  score = score_target pt.target opts;
}

abbrev pub IsBelow : TargetPickOptions → ℤ → PortTarget → Type 0
IsBelow opts s pt = ltb_ℤ (score_target pt.target opts) s ≡ true

abbrev pub IsAtMost : TargetPickOptions → ℤ → PortTarget → Type 0
IsAtMost opts s pt = leb_ℤ (score_target pt.target opts) s ≡ true

-- The first of the best targets: those before it score less, those behind it no more.
pub record FirstBest (opts : TargetPickOptions) (pts : List PortTarget) (best : BackendInspector)
    : Type 0 where
  pub before : List PortTarget
  pub chosen : PortTarget
  pub after : List PortTarget
  pub split : pts ≡ before ++ chosen ∷ after
  pub same : best ≡ inspector_of opts chosen
  pub lower : All (IsBelow opts (score_target chosen.target opts)) before
  pub no_higher : All (IsAtMost opts (score_target chosen.target opts)) after

pub lt_trans : (a b c : ℤ) → ltb_ℤ a b ≡ true → ltb_ℤ b c ≡ true → ltb_ℤ a c ≡ true
lt_trans a b c h k = ground arith

pub le-lt_trans : (a b c : ℤ) → leb_ℤ a b ≡ true → ltb_ℤ b c ≡ true → ltb_ℤ a c ≡ true
le-lt_trans a b c h k = ground arith

not-lt : (a b : ℤ) → ltb_ℤ a b ≡ false → leb_ℤ b a ≡ true
not-lt a b h = ground arith

better_new :
    (opts : TargetPickOptions) (best : BackendInspector) (pt : PortTarget)
    → ltb_ℤ best.score (score_target pt.target opts) ≡ true
    → better opts best pt ≡ inspector_of opts pt
unfolding better
better_new opts best pt e = rw e

better_kept :
    (opts : TargetPickOptions) (best : BackendInspector) (pt : PortTarget)
    → ltb_ℤ best.score (score_target pt.target opts) ≡ false
    → better opts best pt ≡ best
unfolding better
better_kept opts best pt e = rw e

-- What the loop ends with: the best so far stays, or a first best that is better.
abbrev pub Loop : TargetPickOptions → BackendInspector → List PortTarget → BackendInspector → Type 0
Loop opts best pts end =
    ((end ≡ best) × All (IsAtMost opts best.score) pts)
    ⊎ (FirstBest opts pts end × (ltb_ℤ best.score end.score ≡ true))

Loop-new :
    (opts : TargetPickOptions) (best : BackendInspector) (pt : PortTarget) (pts : List PortTarget)
    (end : BackendInspector)
    → ltb_ℤ best.score (score_target pt.target opts) ≡ true
    → Loop opts (inspector_of opts pt) pts end
    → Loop opts best (pt ∷ pts) end
Loop-new opts best pt pts end e (inl (same, low)) = inr (
  record {
    before = [];
    chosen = pt;
    after = pts;
    split = refl;
    same = same;
    lower = tt;
    no_higher = low;
  },
  rw same e,
)
Loop-new opts best pt pts end e (inr (f, up)) = inr (
  record {
    before = pt ∷ f.before;
    chosen = f.chosen;
    after = f.after;
    split = ap (λ r. pt ∷ r) f.split;
    same = f.same;
    lower = (subst (λ i. ltb_ℤ (score_target pt.target opts) i.score ≡ true) f.same up, f.lower);
    no_higher = f.no_higher;
  },
  lt_trans best.score (score_target pt.target opts) end.score e up,
)

Loop-kept :
    (opts : TargetPickOptions) (best : BackendInspector) (pt : PortTarget) (pts : List PortTarget)
    (end : BackendInspector)
    → ltb_ℤ best.score (score_target pt.target opts) ≡ false
    → Loop opts best pts end
    → Loop opts best (pt ∷ pts) end
Loop-kept opts best pt pts end e (inl (same, low)) =
    inl (same, (not-lt best.score (score_target pt.target opts) e, low))
Loop-kept opts best pt pts end e (inr (f, up)) = inr (
  record {
    before = pt ∷ f.before;
    chosen = f.chosen;
    after = f.after;
    split = ap (λ r. pt ∷ r) f.split;
    same = f.same;
    lower = (
      le-lt_trans (score_target pt.target opts) best.score (score_target f.chosen.target opts)
          (not-lt best.score (score_target pt.target opts) e)
          (subst (λ i. ltb_ℤ best.score i.score ≡ true) f.same up),
      f.lower,
    );
    no_higher = f.no_higher;
  },
  up,
)

pub best_of-Loop :
    (opts : TargetPickOptions) (best : BackendInspector) (pts : List PortTarget)
    → Loop opts best pts (best_of opts best pts)
unfolding best_of
best_of-Loop opts best [] = inl (refl, tt)
best_of-Loop opts best (pt ∷ pts) =
    let rest = best_of-Loop opts (better opts best pt) pts in
    elim (Bool-cases (ltb_ℤ best.score (score_target pt.target opts))) [
      | inl e ↦ Loop-new opts best pt pts _ e (
          subst (λ b. Loop opts b pts (best_of opts (better opts best pt) pts))
            (better_new opts best pt e) rest)
      | inr e ↦ Loop-kept opts best pt pts _ e (
          subst (λ b. Loop opts b pts (best_of opts (better opts best pt) pts))
            (better_kept opts best pt e) rest)
    ]
