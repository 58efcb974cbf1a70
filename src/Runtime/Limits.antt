-- ===== src/Runtime/Limits.antt =====
-- Which limits the resource engine of crates/runtime/src/resource.rs keeps, and which files they are
-- written to.
use text.Mathlib.TextPositions.{eq_refl}
use omnisec.Prelude.{
  ℕ, ◌≡◌, refl, ap, ◌∙◌, String, Bool, true, not, Option, List, [], ◌∷◌, ◌++◌, arith, retain,
}
use omnisec.Prelude.Texts.{concat}
use omnisec.Prelude.External.{Uuid, DateTime}
use omnisec.Runtime.Types.{RuntimeMode, native, simulated, RuntimeAction}
use omnisec.Runtime.Resource.{
  ResourceLimit, ResourceEngine, throttle_in, throttle, without, limits, release_in, release,
  get_active_cgroups, limit_of, add_limit,
}

forgotten :
    (agent_name : String) (l : ResourceLimit) (xs : List ResourceLimit)
    → limits agent_name l ≡ true
    → retain (λ x. x.active) (retain (λ x. not (limits agent_name x)) (xs ++ l ∷ []))
      ≡ retain (λ x. not (limits agent_name x)) (retain (λ x. x.active) xs)
unfolding retain
forgotten agent_name l [] h = rw h refl
forgotten agent_name l (x ∷ xs) h = ground (arith, forgotten agent_name l xs h)

-- The path of an agent's cgroup in the registry.
abbrev path_in : RuntimeMode → String → String
path_in native agent_name = concat ("/sys/fs/cgroup/omnisec/" ∷ agent_name ∷ [])
path_in simulated agent_name = concat ("[sim] omnisec/" ∷ agent_name ∷ [])

release_registry :
    (mode : RuntimeMode) (e : ResourceEngine) (agent_name : String) (action : RuntimeAction)
    → (release_in mode e agent_name action).0 ≡ without e agent_name
unfolding release_in
release_registry native e agent_name action = refl
release_registry simulated e agent_name action = refl

module _ (v2 : Bool) (e : ResourceEngine) (pid : ℕ) (agent_name : String) (cpu_percent : ℕ)
    (memory : Option String) (id : Uuid) (now : DateTime) where
  throttle_registry :
      (mode : RuntimeMode) (action : RuntimeAction)
      → (throttle_in mode v2 e pid agent_name cpu_percent memory action now).0
        ≡ add_limit e (limit_of (path_in mode agent_name) pid agent_name cpu_percent memory now)
  unfolding throttle_in
  throttle_registry native action = refl
  throttle_registry simulated action = refl

  throttle_files :
      (mode : RuntimeMode) (action other : RuntimeAction) (name : String)
      → (throttle_in mode v2 e pid agent_name cpu_percent memory action now).2
        ≡ (throttle_in mode v2 e pid name cpu_percent memory other now).2
  unfolding throttle_in
  throttle_files native action other name = refl
  throttle_files simulated action other name = refl

  -- After `throttle` and `release` of an agent the active limits are those of the other agents
  -- before; but what `throttle` does to the cgroup file system is the same for every agent's name, so
  -- that the limits of one agent are written over those of another.
  pub release-throttle :
      (get_active_cgroups
          (release (throttle v2 e pid agent_name cpu_percent memory id now).0 agent_name id now).0
        ≡ retain (λ l. not (limits agent_name l)) (get_active_cgroups e))
      × ((name : String)
          → (throttle v2 e pid agent_name cpu_percent memory id now).2
            ≡ (throttle v2 e pid name cpu_percent memory id now).2)
  unfolding throttle get_active_cgroups release limit_of
  release-throttle = (
    ap get_active_cgroups (release_registry _ _ agent_name _)
        ∙ ap (λ x. get_active_cgroups (without x agent_name)) (throttle_registry e.mode _)
        ∙ forgotten agent_name
            (limit_of (path_in e.mode agent_name) pid agent_name cpu_percent memory now) e.cgroups
            (eq_refl agent_name),
    throttle_files e.mode _ _,
  )
