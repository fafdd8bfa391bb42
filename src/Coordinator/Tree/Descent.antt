-- ===== src/Coordinator/Tree/Descent.antt =====
-- The workspaces below another, and the traversal that lists them (tree.rs).
use wacp_platform.Prelude.{
  ℕ, zero, suc, true, some, contains, contains-append, string_eq, List, [], ◌∷◌, ◌++◌, ◌==◌, ◌≡◌,
  ◌↔◌, arith, ap, sym, ◌∙◌, Bool-cases, Option-cases, inl, inr, subst,
}
use wacp_platform.Types.Records.{WorkspaceId}
use wacp_platform.Coordinator.Tree.{WorkspaceTree, children}
use wacp_platform.Coordinator.Tree.Traversal.{visit, descendants}
use wacp_platform.Coordinator.Tree.Reparent.{lists}

-- Below a workspace are those that it lists, and those that one below it lists.
pub data IsBelow (t : WorkspaceTree) (id : WorkspaceId) : WorkspaceId → Type 0 where
  child : {j : WorkspaceId} → lists id j t ≡ true → IsBelow t id j
  deeper : {k j : WorkspaceId} → IsBelow t id k → lists k j t ≡ true → IsBelow t id j

-- One step down, and on from there.
through :
    (t : WorkspaceTree) (id k : WorkspaceId) {j : WorkspaceId}
    → lists id k t ≡ true
    → IsBelow t k j
    → IsBelow t id j
through t id k first (child h) = deeper (child first) h
through t id k first (deeper above h) = deeper (through t id k first above) h

visit-listed :
    (fuel : ℕ) (queue desc : List WorkspaceId) (t : WorkspaceTree) (k j : WorkspaceId)
    → visit fuel queue t ≡ some desc
    → contains (queue ++ desc) k ≡ true
    → lists k j t ≡ true
    → contains desc j ≡ true
unfolding visit
visit-listed fuel [] desc t k j h among listed =
    let none_left : [] ≡ desc = ground arith in
    absurd (ground (arith, ap (λ ids. contains ids k) none_left))
visit-listed zero (c ∷ queue) desc t k j h among listed = absurd (ground arith)
visit-listed (suc fuel) (c ∷ queue) desc t k j h among listed =
    let below = children c t in
    elim (Option-cases (visit fuel (queue ++ below) t)) [
      | inl out ↦ absurd (ground (arith, out))
      | inr (rest, done) ↦
          let same : below ++ rest ≡ desc = ground (arith, done) in
          let has_k = sym (ap (λ ids. contains ids k) same) ∙ contains-append below rest k in
          let has_j = sym (ap (λ ids. contains ids j) same) ∙ contains-append below rest j in
          elim (Bool-cases (c == k)) [
            | inl here ↦
                let own = ap (λ i. lists i j t) ((string_eq.beq_iff c k).0 here) in
                ground (arith, has_j, own)
            | inr there ↦
                let among' : contains ((queue ++ below) ++ rest) k ≡ true = ground (
                  arith,
                  there,
                  has_k,
                  contains-append queue desc k,
                  contains-append (queue ++ below) rest k,
                  contains-append queue below k,
                ) in
                ground
                  (arith, has_j, visit-listed fuel (queue ++ below) rest t k j done among' listed)
          ]
    ]

visit-IsBelow :
    (fuel : ℕ) (queue desc : List WorkspaceId) (t : WorkspaceTree) (j : WorkspaceId)
    → visit fuel queue t ≡ some desc
    → contains desc j ≡ true
    → (k : WorkspaceId) × (contains queue k ≡ true) × IsBelow t k j
unfolding visit
visit-IsBelow fuel [] desc t j h listed =
    let none_left : [] ≡ desc = ground arith in
    absurd (ground (arith, ap (λ ids. contains ids j) none_left))
visit-IsBelow zero (c ∷ queue) desc t j h listed = absurd (ground arith)
visit-IsBelow (suc fuel) (c ∷ queue) desc t j h listed =
    let below = children c t in
    elim (Option-cases (visit fuel (queue ++ below) t)) [
      | inl out ↦ absurd (ground (arith, out))
      | inr (rest, done) ↦
          let same : below ++ rest ≡ desc = ground (arith, done) in
          let has_j = sym (ap (λ ids. contains ids j) same) ∙ contains-append below rest j in
          elim (Bool-cases (contains below j)) [
            | inl here ↦ (c, ground (arith, string_eq.beq_iff c c), child here)
            | inr there ↦
                let (k, queued, under) =
                  visit-IsBelow fuel (queue ++ below) rest t j done
                    (ground (arith, has_j, there)) in
                elim (Bool-cases (contains queue k)) [
                  | inl before ↦ (k, ground (arith, before), under)
                  | inr after ↦
                      let listed' : lists c k t ≡ true =
                        ground (arith, after, contains-append queue below k) in
                      (c, ground (arith, string_eq.beq_iff c c), through t c k listed' under)
                ]
          ]
    ]

IsBelow-listed :
    (fuel : ℕ) (id : WorkspaceId) (desc : List WorkspaceId) (t : WorkspaceTree)
    → visit fuel (id ∷ []) t ≡ some desc
    → {j : WorkspaceId} → IsBelow t id j
    → contains desc j ≡ true
IsBelow-listed fuel id desc t h {j} (child listed) =
    visit-listed fuel (id ∷ []) desc t id j h (ground (arith, string_eq.beq_iff id id)) listed
IsBelow-listed fuel id desc t h {j} (deeper {k} above listed) =
    let found = IsBelow-listed fuel id desc t h above in
    visit-listed fuel (id ∷ []) desc t k j h (ground (arith, found)) listed

-- What the traversal lists is what is below.
pub descendants_iff :
    (fuel : ℕ) (id j : WorkspaceId) (desc : List WorkspaceId) (t : WorkspaceTree)
    → descendants fuel id t ≡ some desc
    → (contains desc j ≡ true) ↔ IsBelow t id j
unfolding descendants
descendants_iff fuel id j desc t h = (
  λ listed.
      let (k, queued, under) = visit-IsBelow fuel (id ∷ []) desc t j h listed in
      let same : k ≡ id = ground (arith, string_eq.beq_iff id k) in
      subst (λ i. IsBelow t i j) same under,
  IsBelow-listed fuel id desc t h,
)
