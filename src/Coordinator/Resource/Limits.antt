-- ===== src/Coordinator/Resource/Limits.antt =====
-- The result of a budget check (resource.rs), stated over the list of dimensions.
use mathlib.Core.List.{append_assoc, append-nil}
use wacp_platform.Prelude.{
  sym, ℕ, Bool, false, not, ◌&&◌, String, Option, none, some, List, [], ◌∷◌, ◌++◌, leb, ltb, ◌≡◌,
  arith, map, retain, ◌∙◌,
}
use wacp_platform.Types.Records.{ResourceUsage, ResourceBudget}
use wacp_platform.Coordinator.Resource.Budget.{
  BudgetCheckResult, ok, warning, exceeded, Findings, effective, check_dim, check_all, verdict,
  check,
}

-- A dimension of a budget: its name, what is used of it, and its limit.
pub record Dimension : Type 0 where
  pub name : String
  pub used : ℕ
  pub limit : Option ℕ

abbrev pub dimensions : {F : Type 0} → ResourceUsage → ResourceBudget F → List Dimension
dimensions usage budget =
    record { name = "tokens"; used = usage.tokens; limit = budget.max_tokens }
    ∷ record { name = "wall_time_ms"; used = usage.wall_time_ms; limit = budget.max_wall_time_ms }
    ∷ record {
      name = "storage_bytes";
      used = usage.storage_bytes;
      limit = budget.max_storage_bytes;
    }
    ∷ record {
      name = "network_bytes";
      used = usage.network_bytes;
      limit = budget.max_network_bytes;
    }
    ∷ record { name = "cost_micros"; used = usage.cost_micros; limit = budget.max_cost_micros }
    ∷ []

abbrev pub is_reached : ℕ → Option ℕ → Bool
is_reached used none = false
is_reached used (some l) = ltb 0 l && leb l used

-- There is a limit, which 0 is not, and the use has reached it.
abbrev pub is_exceeded : Dimension → Bool
is_exceeded d = is_reached d.used d.limit

abbrev pub names : (Dimension → Bool) → List Dimension → List String
names p ds = map (λ d. d.name) (retain p ds)

-- The most severe result for the names of the dimensions exceeded and near their limit.
pub severity : List String → List String → BudgetCheckResult
severity [] [] = ok
severity [] (w ∷ ws) = warning (w ∷ ws)
severity (e ∷ es) ws = exceeded (e ∷ es)

verdict-severity : (f : Findings) → verdict f ≡ severity f.exceeded_names f.warnings
unfolding verdict severity
verdict-severity f = ground arith

module _ {F : Type 0} (reaches : ℕ → ℕ → F → Bool) where
  abbrev pub is_close : F → ℕ → Option ℕ → Bool
  is_close threshold used none = false
  is_close threshold used (some l) = ltb 0 l && (not (leb l used) && reaches used l threshold)

  -- There is a limit, which 0 is not, the use is below it, and it has reached the warning share.
  abbrev pub is_near : F → Dimension → Bool
  is_near threshold d = is_close threshold d.used d.limit

  fold_dims : F → List Dimension → Findings → Findings
  fold_dims threshold [] f = f
  fold_dims threshold (d ∷ ds) f =
      fold_dims threshold ds (check_dim reaches d.name d.used d.limit threshold f)

  check_dim-warnings :
      (threshold : F) (d : Dimension) (f : Findings) (ds : List Dimension)
      → (check_dim reaches d.name d.used d.limit threshold f).warnings
          ++ names (is_near threshold) ds
        ≡ f.warnings ++ names (is_near threshold) (d ∷ ds)
  unfolding check_dim effective
  check_dim-warnings threshold d f ds =
      ground (arith, append_assoc f.warnings (d.name ∷ []) (names (is_near threshold) ds))

  check_dim-exceeded :
      (threshold : F) (d : Dimension) (f : Findings) (ds : List Dimension)
      → (check_dim reaches d.name d.used d.limit threshold f).exceeded_names ++ names is_exceeded ds
        ≡ f.exceeded_names ++ names is_exceeded (d ∷ ds)
  unfolding check_dim effective
  check_dim-exceeded threshold d f ds =
      ground (arith, append_assoc f.exceeded_names (d.name ∷ []) (names is_exceeded ds))

  fold_dims-names :
      (threshold : F) (ds : List Dimension) (f : Findings)
      → ((fold_dims threshold ds f).warnings ≡ f.warnings ++ names (is_near threshold) ds)
        × ((fold_dims threshold ds f).exceeded_names ≡ f.exceeded_names ++ names is_exceeded ds)
  unfolding fold_dims
  fold_dims-names threshold [] f = (sym (append-nil f.warnings), sym (append-nil f.exceeded_names))
  fold_dims-names threshold (d ∷ ds) f =
      let f' = check_dim reaches d.name d.used d.limit threshold f in
      let ih = fold_dims-names threshold ds f' in
      (ih.0 ∙ check_dim-warnings threshold d f ds, ih.1 ∙ check_dim-exceeded threshold d f ds)

  -- A budget check reports the dimensions that have reached a limit above 0, in the fixed order, if
  -- there are any; otherwise those that have reached the warning share of such a limit, if there
  -- are any; otherwise that all is well.
  pub check-severity :
      (usage : ResourceUsage) (budget : ResourceBudget F)
      → check reaches usage budget
        ≡ severity
            (names is_exceeded (dimensions usage budget))
            (names (is_near budget.warning_threshold) (dimensions usage budget))
  unfolding check check_all fold_dims
  check-severity usage budget =
      let empty : Findings = record { warnings = []; exceeded_names = [] } in
      let found = fold_dims-names budget.warning_threshold (dimensions usage budget) empty in
      verdict-severity (check_all reaches usage budget) ∙ cc (found.0, found.1)
