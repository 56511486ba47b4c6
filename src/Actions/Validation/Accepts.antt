-- ===== src/Actions/Validation/Accepts.antt =====
-- When the validation of internal/services/actions/validation.go lets a request through.
use kubepeep.Base.{
  ℕ, ℤ, pos, ◌≤◌, ◌<◌, ◌≢◌, codes, any_of, ◌==◌, ◌≤ℤ◌, ltb_ℤ, ltb, ◌≡◌, ◌↔◌, refl, String, str_eq,
  eq_iff, Bool, true, false, not, ◌&&◌, ◌||◌, none, some, List, [], ◌∷◌, ◌++◌, if◌then◌else◌, ◌⊎◌,
  inl, inr, Bool-cases, arith, All, len,
}
use kubepeep.Selection.State.{SelectionBinding}
use kubepeep.Actions.Requests.{
  RouteTarget, Confirmation, Action, ConsequenceCode, ScaleRequest, action_scale,
  consequence_change_replica_count,
}
use kubepeep.Actions.Validation.{
  Libraries, FieldViolation, ValidationError, Check, violations, refuse, then_check, details,
  validate_binding, validate_confirmation, confirmation_checks, validate_opaque_precondition,
  validate_scale, scale_details, has_control,
}

pub refuse-violations :
    (checks : List Check) → (refuse (violations checks) ≡ none) ↔ All (λ c. c.0 ≡ false) checks
refuse-violations [] = (λ h. tt, λ h. refl)
refuse-violations ((true, v) ∷ checks) = (λ h. ground (arith, h), λ h. ground (arith, h))
refuse-violations ((false, v) ∷ checks) =
    let rest = refuse-violations checks in (λ h. (refl, rest.0 h), λ h. rest.1 h.1)

pub then_check-none : (a b : ValidationError) → (then_check a b ≡ none) ↔ ((a ≡ none) × (b ≡ none))
then_check-none none b = (λ h. (refl, h), λ h. h.1)
then_check-none (some vs) b = (λ h. ground (arith, h), λ h. ground (arith, h))

-- The request repeats the route, the active selection and what the action does, and confirms it.
pub record IsConfirmed (libraries : Libraries) (binding : SelectionBinding) (route : RouteTarget)
    (c : Confirmation) (action : Action) (consequence : ConsequenceCode)
    (route_kind target_kind : String) : Type 0 where
  pub route_kind_matches : route.kind ≡ route_kind
  pub namespace_is_label : libraries.is_dns1123_label route.namespace ≡ true
  pub name_is_subdomain : libraries.is_dns1123_subdomain route.name ≡ true
  pub is_confirmed : c.confirmed ≡ true
  pub action_matches : c.action ≡ action
  pub consequence_matches : c.consequence_code ≡ consequence
  pub generation_matches : c.expected_generation ≡ binding.generation
  pub profile_matches : c.target.cluster_profile_id ≡ binding.cluster_profile_id
  pub context_matches : c.target.context ≡ binding.context
  pub namespace_matches : c.target.namespace ≡ route.namespace
  pub kind_matches : c.target.kind ≡ target_kind
  pub name_matches : c.target.name ≡ route.name

not_eq_iff : (s t : String) → (not (str_eq s t) ≡ false) ↔ (s ≡ t)
not_eq_iff s t = (λ h. ground (arith, h, eq_iff s t), λ h. ground (arith, h, eq_iff s t))

not_iff : (b : Bool) → (not b ≡ false) ↔ (b ≡ true)
not_iff b = (λ h. ground (arith, h), λ h. ground (arith, h))

-- No control character of ASCII.
abbrev pub IsPrintable : String → Type 0
IsPrintable s = All (λ c. (0x20 ≤ c) × (c ≢ 0x7f)) (codes s)

-- The selection that a request is checked against.
pub record IsActive (b : SelectionBinding) : Type 0 where
  pub has_profile : 0 < b.cluster_profile_id
  pub has_context : b.context ≢ ""
  pub context_within : len b.context ≤ 253
  pub context_is_printable : IsPrintable b.context
  pub has_generation : b.generation ≢ ""
  pub generation_within : len b.generation ≤ 256
  pub generation_is_printable : IsPrintable b.generation

any_control-All :
    (cs : List ℕ)
    → (any_of (λ c. ltb c 0x20 || c == 0x7f) cs ≡ false) ↔ All (λ c. (0x20 ≤ c) × (c ≢ 0x7f)) cs
any_control-All [] = (λ h. tt, λ h. refl)
any_control-All (c ∷ cs) =
    let rest = any_control-All cs in
    (
      λ h. ((ground (arith, h), λ e. ground (arith, h, e)), rest.0 (ground (arith, h))),
      λ h. let later = rest.1 h.1 in ground (arith, h.0, later),
    )

bounded_text_iff :
    (s : String) (n : ℕ)
    → (str_eq s "" || ltb n (len s) || has_control s ≡ false)
      ↔ ((s ≢ "") × (len s ≤ n) × IsPrintable s)
unfolding has_control
bounded_text_iff s n =
    let control = any_control-All (codes s) in
    (
      λ h. (
        λ e. ground (arith, h, e, eq_iff s ""),
        ground (arith, h),
        control.0 (ground (arith, h)),
      ),
      λ h. let plain = control.1 h.2 in ground (arith, h.0, h.1, plain, eq_iff s ""),
    )

validate_binding-accepts : (b : SelectionBinding) → (validate_binding b ≡ none) ↔ IsActive b
unfolding validate_binding
validate_binding-accepts b =
    let context = bounded_text_iff b.context 253 in
    let generation = bounded_text_iff b.generation 256 in
    let all = refuse-violations (
      (b.cluster_profile_id == 0, record { field = "target.clusterProfileId"; rule = "positive" })
      ∷ (
        str_eq b.context "" || ltb 253 (len b.context) || has_control b.context,
        record { field = "target.context"; rule = "active_context" },
      )
      ∷ (
        str_eq b.generation "" || ltb 256 (len b.generation) || has_control b.generation,
        record { field = "expectedGeneration"; rule = "active_generation" },
      )
      ∷ []) in
    (
      λ h.
          let (p, (c, (g, _))) = all.0 h in
          record {
            has_profile = ground (arith, p);
            has_context = (context.0 c).0;
            context_within = (context.0 c).1;
            context_is_printable = (context.0 c).2;
            has_generation = (generation.0 g).0;
            generation_within = (generation.0 g).1;
            generation_is_printable = (generation.0 g).2;
          },
      λ v. all.1 (
        ground (arith, v.has_profile),
        (
          context.1 (v.has_context, v.context_within, v.context_is_printable),
          (generation.1 (v.has_generation, v.generation_within, v.generation_is_printable), tt),
        ),
      ),
    )

-- Two tests and a third whose violation is appended.
refuse_three :
    (a b c : Bool) (u v w : FieldViolation)
    → (refuse (violations ((a, u) ∷ (b, v) ∷ []) ++ details (refuse (violations ((c, w) ∷ []))))
        ≡ none)
      ↔ ((a ≡ false) × (b ≡ false) × (refuse (violations ((c, w) ∷ [])) ≡ none))
refuse_three true b c u v w = (λ h. ground (arith, h), λ h. ground (arith, h))
refuse_three false true c u v w = (λ h. ground (arith, h), λ h. ground (arith, h))
refuse_three false false true u v w = (λ h. ground (arith, h), λ h. ground (arith, h))
refuse_three false false false u v w = (λ h. (refl, refl, refl), λ h. refl)

guarded_check :
    (bad : Bool) (v : FieldViolation) (a b : ValidationError)
    → ((if bad then refuse (violations ((true, v) ∷ [])) else then_check a b) ≡ none)
      ↔ ((bad ≡ false) × (a ≡ none) × (b ≡ none))
guarded_check true v a b = (λ h. ground (arith, h), λ h. ground (arith, h))
guarded_check false v none b = (λ h. (refl, refl, h), λ h. h.2)
guarded_check false v (some vs) b = (λ h. ground (arith, h), λ h. ground (arith, h))

scalable_iff :
    (kind : String)
    → (not (str_eq kind "deployments") && not (str_eq kind "statefulsets") ≡ false)
      ↔ ((kind ≡ "deployments") ⊎ (kind ≡ "statefulsets"))
scalable_iff kind = (
  λ h. elim (Bool-cases (str_eq kind "deployments")) [
    | inl q ↦ inl ((eq_iff kind "deployments").0 q)
    | inr q ↦ inr (ground (arith, h, q, eq_iff kind "statefulsets"))
  ],
  λ h. elim h [
    | inl q ↦ ground (arith, (eq_iff kind "deployments").1 q)
    | inr q ↦ ground (arith, (eq_iff kind "statefulsets").1 q)
  ],
)

ltb_ℤ_iff : (i j : ℤ) → (ltb_ℤ i j ≡ false) ↔ (j ≤ℤ i)
ltb_ℤ_iff i j = (λ h. ground (arith, h), λ h. ground (arith, h))

module _ (libraries : Libraries) where
  checks-IsConfirmed :
      (binding : SelectionBinding) (route : RouteTarget) (c : Confirmation) (action : Action)
      (consequence : ConsequenceCode) (route_kind target_kind : String)
      → All
          (λ c. c.0 ≡ false)
          (confirmation_checks libraries binding route c action consequence route_kind target_kind)
      → IsConfirmed libraries binding route c action consequence route_kind target_kind
  unfolding confirmation_checks
  checks-IsConfirmed binding route c action consequence route_kind target_kind
        (k1, (k2, (k3, (k4, (k5, (k6, (k7, (k8, (k9, (k10, (k11, (k12, _)))))))))))) =
      record {
        route_kind_matches = (not_eq_iff route.kind route_kind).0 k1;
        namespace_is_label = (not_iff _).0 k2;
        name_is_subdomain = (not_iff _).0 k3;
        is_confirmed = (not_iff _).0 k4;
        action_matches = (not_eq_iff c.action action).0 k5;
        consequence_matches = (not_eq_iff c.consequence_code consequence).0 k6;
        generation_matches = (not_eq_iff c.expected_generation binding.generation).0 k7;
        profile_matches = ground (arith, k8);
        context_matches = (not_eq_iff c.target.context binding.context).0 k9;
        namespace_matches = (not_eq_iff c.target.namespace route.namespace).0 k10;
        kind_matches = (not_eq_iff c.target.kind target_kind).0 k11;
        name_matches = (not_eq_iff c.target.name route.name).0 k12;
      }

  IsConfirmed-checks :
      (binding : SelectionBinding) (route : RouteTarget) (c : Confirmation) (action : Action)
      (consequence : ConsequenceCode) (route_kind target_kind : String)
      → IsConfirmed libraries binding route c action consequence route_kind target_kind
      → All
          (λ c. c.0 ≡ false)
          (confirmation_checks libraries binding route c action consequence route_kind target_kind)
  unfolding confirmation_checks
  IsConfirmed-checks binding route c action consequence route_kind target_kind v = (
    (not_eq_iff route.kind route_kind).1 v.route_kind_matches,
    (
      (not_iff _).1 v.namespace_is_label,
      (
        (not_iff _).1 v.name_is_subdomain,
        (
          (not_iff _).1 v.is_confirmed,
          (
            (not_eq_iff c.action action).1 v.action_matches,
            (
              (not_eq_iff c.consequence_code consequence).1 v.consequence_matches,
              (
                (not_eq_iff c.expected_generation binding.generation).1 v.generation_matches,
                (
                  ground (arith, v.profile_matches),
                  (
                    (not_eq_iff c.target.context binding.context).1 v.context_matches,
                    (
                      (not_eq_iff c.target.namespace route.namespace).1 v.namespace_matches,
                      (
                        (not_eq_iff c.target.kind target_kind).1 v.kind_matches,
                        ((not_eq_iff c.target.name route.name).1 v.name_matches, tt),
                      ),
                    ),
                  ),
                ),
              ),
            ),
          ),
        ),
      ),
    ),
  )

  confirmation_parts :
      (binding : SelectionBinding) (route : RouteTarget) (c : Confirmation) (action : Action)
      (consequence : ConsequenceCode) (route_kind target_kind : String)
      → (validate_confirmation libraries binding route c action consequence route_kind target_kind
          ≡ none)
        ↔ ((validate_binding binding ≡ none)
            × IsConfirmed libraries binding route c action consequence route_kind target_kind)
  unfolding validate_confirmation
  confirmation_parts binding route c action consequence route_kind target_kind =
      let checks =
        confirmation_checks libraries binding route c action consequence route_kind target_kind in
      let both = then_check-none (validate_binding binding) (refuse (violations checks)) in
      let all = refuse-violations checks in
      (
        λ h. (
          (both.0 h).0,
          checks-IsConfirmed binding route c action consequence route_kind target_kind
              (all.0 (both.0 h).1),
        ),
        λ h. both.1 (
          h.0,
          all.1 (IsConfirmed-checks binding route c action consequence route_kind target_kind h.1),
        ),
      )

  -- A confirmation is accepted exactly when the active selection has a cluster profile, a context and a
  -- generation of at most 253 and 256 bytes without control characters, the route is of the given kind
  -- with a DNS label as its namespace and a DNS subdomain as its name, and the request is confirmed and
  -- repeats the action, its consequence, the route and the selection.
  pub validate_confirmation-accepts :
      (binding : SelectionBinding) (route : RouteTarget) (c : Confirmation) (action : Action)
      (consequence : ConsequenceCode) (route_kind target_kind : String)
      → (validate_confirmation libraries binding route c action consequence route_kind target_kind
          ≡ none)
        ↔ (IsActive binding
            × IsConfirmed libraries binding route c action consequence route_kind target_kind)
  validate_confirmation-accepts binding route c action consequence route_kind target_kind =
      let parts = confirmation_parts binding route c action consequence route_kind target_kind in
      let active = validate_binding-accepts binding in
      (λ h. (active.0 (parts.0 h).0, (parts.0 h).1), λ h. parts.1 (active.1 h.0, h.1))

  refuse-scale_details :
      (request : ScaleRequest)
      → (refuse (scale_details libraries request) ≡ none) ↔ (
          (pos 0 ≤ℤ request.replicas)
          × (request.replicas ≤ℤ pos 2147483647)
          × (validate_opaque_precondition libraries "expectedResourceVersion"
                request.expected_resource_version
              ≡ none))
  unfolding scale_details validate_opaque_precondition
  refuse-scale_details request =
      let s = request.expected_resource_version in
      let three =
        refuse_three (ltb_ℤ request.replicas (pos 0)) (ltb_ℤ (pos 2147483647) request.replicas)
          (str_eq s "" || ltb 256 (len s) || has_control s || not (libraries.is_valid_utf8 s))
          (record { field = "replicas"; rule = "minimum_0" })
          (record { field = "replicas"; rule = "maximum_2147483647" })
          (record { field = "expectedResourceVersion"; rule = "non_empty_opaque_max_256" }) in
      let low = ltb_ℤ_iff request.replicas (pos 0) in
      let high = ltb_ℤ_iff (pos 2147483647) request.replicas in
      (
        λ h. let (a, b, c) = three.0 h in (low.0 a, high.0 b, c),
        λ h. three.1 (low.1 h.0, high.1 h.1, h.2),
      )

  -- The kind of the controller behind a route that can be scaled.
  abbrev pub scalable_kind : String → String
  scalable_kind kind = if str_eq kind "statefulsets" then "StatefulSet" else "Deployment"

  -- A scale request is accepted exactly when its route is a deployment or a stateful set, its
  -- confirmation is accepted, the number of replicas is an int32 that is not negative, and the
  -- expected resource version is well formed.
  pub validate_scale-accepts :
      (binding : SelectionBinding) (route : RouteTarget) (request : ScaleRequest)
      → (validate_scale libraries binding route request ≡ none) ↔ (
          ((route.kind ≡ "deployments") ⊎ (route.kind ≡ "statefulsets"))
          × (validate_binding binding ≡ none)
          × IsConfirmed libraries binding route request.confirmation action_scale
              consequence_change_replica_count route.kind
              (scalable_kind route.kind)
          × (pos 0 ≤ℤ request.replicas)
          × (request.replicas ≤ℤ pos 2147483647)
          × (validate_opaque_precondition libraries "expectedResourceVersion"
                request.expected_resource_version
              ≡ none))
  unfolding validate_scale
  validate_scale-accepts binding route request =
      let bad = not (str_eq route.kind "deployments") && not (str_eq route.kind "statefulsets") in
      let confirmation =
        validate_confirmation libraries binding route request.confirmation action_scale
          consequence_change_replica_count route.kind (scalable_kind route.kind) in
      let parts =
        guarded_check bad (record { field = "path.kind"; rule = "deployments_or_statefulsets" })
          confirmation (refuse (scale_details libraries request)) in
      let confirmed =
        confirmation_parts binding route request.confirmation action_scale
          consequence_change_replica_count route.kind (scalable_kind route.kind) in
      let rest = refuse-scale_details request in
      let kind = scalable_iff route.kind in
      (
        λ h.
            let (k, c, r) = parts.0 h in
            let (b, v) = confirmed.0 c in
            let (low, high, opaque) = rest.0 r in (kind.0 k, b, v, low, high, opaque),
        λ h. parts.1 (kind.1 h.0, confirmed.1 (h.1, h.2), rest.1 (h.3, h.4, h.5)),
      )
