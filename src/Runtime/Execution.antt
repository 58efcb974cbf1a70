-- ===== src/Runtime/Execution.antt =====
-- What `RuntimeManager::execute` of crates/runtime/src/lib.rs records in the audit trail.
use omnisec.Prelude.{
  ℕ, ◌+◌, ◌≡◌, refl, ap, sym, ◌∙◌, String, Bool, Option, none, some, List, [], ◌∷◌, ◌++◌, false,
  map,
}
use mathlib.Core.Path.{ap₂}
use mathlib.Core.List.{append-nil, append_assoc, map-append}
use omnisec.Prelude.External.{Uuid, DateTime}
use omnisec.Decision.Types.{
  DecisionAction, allow, flag, block, restart, escalate, EnforcementDecision,
}
use omnisec.Runtime.Types.{RuntimeAction}
use omnisec.Runtime.Firewall.{Host}
use omnisec.Runtime.Audit.{KernelAuditEntry}
use omnisec.Runtime.Manager.{
  RuntimeManager, record_action, record_all, block_destination, dispatch, execute,
}

-- What an entry of the trail says of an action.
abbrev pub Summary : Type 0
Summary = String × String × String × ℕ × Bool × Bool

abbrev pub entry_summary : KernelAuditEntry → Summary
entry_summary e = (e.action_type, e.target, e.result, e.duration_ms, e.verified, e.rolled_back)

abbrev pub action_summary : RuntimeAction → Summary
action_summary a = (a.action_type, a.target, a.result, a.duration_ms, a.verified, false)

-- The actions and the summaries of the trail.
abbrev pub history : RuntimeManager → List RuntimeAction × List Summary
history m = (m.actions, map entry_summary m.audit.entries)

abbrev pub extend :
    List RuntimeAction × List Summary → List RuntimeAction → List RuntimeAction × List Summary
extend h as_ = (h.0 ++ as_, h.1 ++ map action_summary as_)

extend_none : (h : List RuntimeAction × List Summary) → h ≡ extend h []
extend_none h = ap₂ (λ x y. (x, y)) (sym (append-nil h.0)) (sym (append-nil h.1))

extend_more :
    (h : List RuntimeAction × List Summary) (a : RuntimeAction) (as_ : List RuntimeAction)
    → extend (extend h (a ∷ [])) as_ ≡ extend h (a ∷ as_)
extend_more h a as_ =
    ap₂ (λ x y. (x, y)) (append_assoc h.0 (a ∷ []) as_)
      (append_assoc h.1 (action_summary a ∷ []) (map action_summary as_))

module _ (now : DateTime) (ids : ℕ → Uuid) where
  history-record_action :
      (m : RuntimeManager) (a : RuntimeAction) (id : Uuid)
      → history (record_action m a id now) ≡ extend (history m) (a ∷ [])
  unfolding record_action
  history-record_action m a id =
      ap (λ l. (m.actions ++ a ∷ [], l)) (map-append entry_summary m.audit.entries _)

  history-record_all :
      (m : RuntimeManager) (as_ : List RuntimeAction) (n : ℕ)
      → history (record_all m as_ ids n now) ≡ extend (history m) as_
  unfolding record_all
  history-record_all m [] n = extend_none (history m)
  history-record_all m (a ∷ as_) n =
      history-record_all (record_action m a (ids n) now) as_ (n + 1)
      ∙ ap (λ k. extend k as_) (history-record_action m a (ids n))
      ∙ extend_more (history m) a as_

module _ (h : Host) (d : EnforcementDecision) (ids : ℕ → Uuid) (now : DateTime) where
  history-block_destination :
      (o : Option String) (m : RuntimeManager)
      → history (block_destination h d ids now o m).0 ≡ history m
  unfolding block_destination
  history-block_destination none m = refl
  history-block_destination (some s) m = refl

  history-dispatch :
      (a : DecisionAction) (m : RuntimeManager) → history (dispatch h d ids now a m).0 ≡ history m
  unfolding dispatch
  history-dispatch block m = history-block_destination d.context.destination m
  history-dispatch restart m = refl
  history-dispatch escalate m = history-block_destination d.context.destination _
  history-dispatch allow m = refl
  history-dispatch flag m = refl

  -- `execute` appends the actions that it returns, in order, to the manager's actions and records
  -- each of them, in order, in the audit trail, as not rolled back; it records nothing else.
  pub execute_audited :
      (m : RuntimeManager)
      → history (execute h d ids now m).0 ≡ extend (history m) (execute h d ids now m).1
  unfolding execute
  execute_audited m =
      history-record_all now ids (dispatch h d ids now d.action m).0
        (dispatch h d ids now d.action m).1 3
      ∙ ap (λ k. extend k (dispatch h d ids now d.action m).1) (history-dispatch d.action m)
