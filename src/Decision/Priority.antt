-- ===== src/Decision/Priority.antt =====
-- Which rule `evaluate` of crates/decision/src/lib.rs chooses: the order of policies and rules.
use omnisec.Prelude.{
  ◌≤◌, ◌≡◌, refl, sym, ap, subst, Bool, true, false, Option, none, some, List, [], ◌∷◌, ◌++◌, arith,
  All, find, leb→le, All-imp,
}
use omnisec.Prelude.Sort.{
  first_best, IsTotalOrder, find-sort_by, first_best-IsGreatest, first_best-none,
  first_best-eq_none,
}
use omnisec.Decision.Types.{PolicyRule, VersionedPolicy}
use omnisec.Decision.Engine.{rule_le, sorted_rules, find_match}

pub rule_le-IsTotalOrder : IsTotalOrder rule_le
rule_le-IsTotalOrder = record {
  total = λ x y h. ground arith;
  transitive = λ x y z h k. ground arith;
}

-- No rule of the policy passes.
abbrev pub NoRule : (PolicyRule → Bool) → VersionedPolicy → Type 0
NoRule matches p = All (λ r. matches r ≡ false) p.rules

-- The rule is the first of the greatest priority among those of its policy that match, and no
-- policy before that one has a rule that matches.
pub record Chosen (matches : PolicyRule → Bool) (ps : List VersionedPolicy) (p : VersionedPolicy)
    (r : PolicyRule) : Type 0 where
  pub before : List VersionedPolicy
  pub after : List VersionedPolicy
  pub split : ps ≡ before ++ p ∷ after
  pub none_before : All (NoRule matches) before
  pub best : first_best rule_le matches p.rules ≡ some r
  pub holds : matches r ≡ true
  pub greatest : All (λ s. matches s ≡ true → s.priority ≤ r.priority) p.rules

module _ (matches : PolicyRule → Bool) where
  sorted_first :
      (p : VersionedPolicy) → find matches (sorted_rules p) ≡ first_best rule_le matches p.rules
  unfolding sorted_rules
  sorted_first p = find-sort_by rule_le rule_le-IsTotalOrder matches p.rules

  Chosen-here :
      (p : VersionedPolicy) (ps : List VersionedPolicy) (r : PolicyRule)
      → first_best rule_le matches p.rules ≡ some r
      → Chosen matches (p ∷ ps) p r
  Chosen-here p ps r e =
      let g = first_best-IsGreatest rule_le rule_le-IsTotalOrder matches p.rules r e in
      record {
        before = [];
        after = ps;
        split = refl;
        none_before = tt;
        best = e;
        holds = g.0;
        greatest = All-imp (λ s up t. leb→le s.priority r.priority (up t)) p.rules g.1;
      }

  Chosen-later :
      (q : VersionedPolicy) (ps : List VersionedPolicy) (p : VersionedPolicy) (r : PolicyRule)
      → NoRule matches q
      → Chosen matches ps p r
      → Chosen matches (q ∷ ps) p r
  Chosen-later q ps p r h c = record {
    before = q ∷ c.before;
    after = c.after;
    split = ap (◌∷◌ q) c.split;
    none_before = (h, c.none_before);
    best = c.best;
    holds = c.holds;
    greatest = c.greatest;
  }

  -- The two loops together: no rule of any policy passes, or the rule that is found is the chosen.
  abbrev pub Search : List VersionedPolicy → Option (VersionedPolicy × PolicyRule) → Type 0
  Search ps none = All (NoRule matches) ps
  Search ps (some (p, r)) = Chosen matches ps p r

  Search-later :
      (q : VersionedPolicy) (ps : List VersionedPolicy) (o : Option (VersionedPolicy × PolicyRule))
      → NoRule matches q
      → Search ps o
      → Search (q ∷ ps) o
  Search-later q ps none h s = (h, s)
  Search-later q ps (some (p, r)) h s = Chosen-later q ps p r h s

  Search-cons :
      (p : VersionedPolicy) (ps : List VersionedPolicy) (o : Option PolicyRule)
      → first_best rule_le matches p.rules ≡ o
      → Search ps (find_match matches ps)
      → Search (p ∷ ps) (elim o [ none ↦ find_match matches ps | some r ↦ some (p, r) ])
  Search-cons p ps (some r) e s = Chosen-here p ps r e
  Search-cons p ps none e s =
      Search-later p ps (find_match matches ps)
        (first_best-none rule_le rule_le-IsTotalOrder matches p.rules e) s

  find_match-cons :
      (p : VersionedPolicy) (ps : List VersionedPolicy)
      → find_match matches (p ∷ ps) ≡ elim (first_best rule_le matches p.rules) [
        | none ↦ find_match matches ps
        | some r ↦ some (p, r)
      ]
  unfolding find_match
  find_match-cons p ps =
      ap
        (λ (o : Option PolicyRule). elim o as (λ w. Option (VersionedPolicy × PolicyRule)) [
          | none ↦ find_match matches ps
          | some r ↦ some (p, r)
        ])
        (sorted_first p)

  pub find_match-Search : (ps : List VersionedPolicy) → Search ps (find_match matches ps)
  find_match-Search [] = unfold find_match in tt
  find_match-Search (p ∷ ps) =
      subst (Search (p ∷ ps)) (sym (find_match-cons p ps))
        (Search-cons p ps (first_best rule_le matches p.rules) refl (find_match-Search ps))

  pub find_match-eq_none :
      (ps : List VersionedPolicy) → All (NoRule matches) ps → find_match matches ps ≡ none
  find_match-eq_none [] h = unfold find_match in refl
  find_match-eq_none (p ∷ ps) h = rw (
    find_match-cons p ps,
    first_best-eq_none rule_le matches p.rules h.0,
    find_match-eq_none ps h.1,
  )
