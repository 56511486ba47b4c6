-- ===== src/Resources/Listing/Windows/Outcomes.antt =====
-- What the workers of internal/services/resources/pagination.go bring back for an origin that the client
-- may not list.
use kubepeep.Base.{
  ℕ, ◌≡◌, refl, sym, ap, ◌∙◌, String, Bool, true, false, ◌&&◌, Option, none, some, List, [], ◌∷◌,
  arith, if◌then◌else◌, length, same_text, get_elem?, Bool-cases, inl, inr,
}
use kubepeep.Resources.Listing.{Origin, OriginCursor, Key, key_of}
use kubepeep.Resources.Listing.Windows.{
  Decision, decision_allowed, decision_denied, decision_unknown, ListError, list_forbidden,
  list_failed, Request, OriginOutcome, is_allowed_decision, is_none, bare_outcome, probed,
  authorize, authorize_origin, named_page, fetch_origin, work_on, work, with_outcome,
  run_origin_workers,
}

module _ {ℓ} {Item : Type ℓ} (k : Key) where
  -- An outcome whose page is one of the origin allows nothing and has nothing to apply.
  unfoldable pub IsHarmless : OriginOutcome Item → Type 0
  unfolding key_of
  IsHarmless o =
      same_text k (key_of o.page.origin) ≡ true
      → (is_allowed_decision o.decision ≡ false) × (is_none o.error && o.queried ≡ false)

  unfoldable pub AllHarmless : List (ℕ × OriginOutcome Item) → Type 0
  AllHarmless [] = Unit
  AllHarmless ((i, o) ∷ os) = IsHarmless o × AllHarmless os

  module _ (r : Request Item) (no_grant : r.global_list_grant ≡ none)
      (denies : (m : ℕ) (o : Origin)
        → same_text k (key_of o) ≡ true
        → r.check m o ≡ decision_denied)
      (names : (m : ℕ) (o : Origin) (limit : ℕ) (token : String)
        → same_text k (key_of (r.list_page m o limit token).0.origin) ≡ true
        → same_text k (key_of o) ≡ true) where
    probed_plain :
        (o : Origin) (d : Decision) (reads : Bool) (e : Option ListError)
        → ((probed {Item = Item} o d reads e).page.origin ≡ o)
          × ((probed {Item = Item} o d reads e).queried ≡ false)
    unfolding probed bare_outcome
    probed_plain o decision_allowed reads e = (refl, refl)
    probed_plain o decision_denied reads e = (refl, refl)
    probed_plain o decision_unknown false e = (refl, refl)
    probed_plain o decision_unknown true none = (refl, refl)
    probed_plain o decision_unknown true (some list_forbidden) = (refl, refl)
    probed_plain o decision_unknown true (some (list_failed n)) = (refl, refl)

    authorize_plain :
        (m : ℕ) (grant : Option Decision) (o : Origin)
        → ((authorize r m grant o).page.origin ≡ o) × ((authorize r m grant o).queried ≡ false)
    unfolding authorize bare_outcome
    authorize_plain m (some d) o = (refl, refl)
    authorize_plain m none o = probed_plain o _ _ _

    authorize_denied :
        (m : ℕ) (o : Origin)
        → same_text k (key_of o) ≡ true
        → is_allowed_decision (authorize_origin r m o).decision ≡ false
    unfolding authorize_origin authorize probed bare_outcome
    authorize_denied m o e = rw (no_grant, denies m o e) refl

    named_page_other :
        (m limit : ℕ) (s : OriginCursor Item)
        → same_text k (key_of s.origin) ≡ false
        → same_text k (key_of (named_page s (r.list_page m s.origin limit s.continue).0).origin)
          ≡ false
    unfolding named_page
    named_page_other m limit s other =
        let page = (r.list_page m s.origin limit s.continue).0 in
        elim (Bool-cases (same_text (key_of page.origin) (47 ∷ 47 ∷ 47 ∷ []))) [
          | inl q ↦ rw q other
          | inr q ↦ rw q (elim (Bool-cases (same_text k (key_of page.origin))) [
            | inl e ↦ let asked = names m s.origin limit s.continue e in cc
            | inr e ↦ e
          ])
        ]

    IsHarmless-fetch_origin :
        (m limit : ℕ) (s : OriginCursor Item) (d : Decision)
        → same_text k (key_of s.origin) ≡ false
        → IsHarmless (fetch_origin r m s limit d)
    unfolding IsHarmless fetch_origin
    IsHarmless-fetch_origin m limit s d other = λ e. let q = named_page_other m limit s other in cc

    IsHarmless-plain :
        (s : OriginCursor Item) (a : OriginOutcome Item)
        → a.page.origin ≡ s.origin
        → a.queried ≡ false
        → (same_text k (key_of s.origin) ≡ true → is_allowed_decision a.decision ≡ false)
        → IsHarmless a
    unfolding IsHarmless
    IsHarmless-plain s a at idle denied =
        λ e. (denied (ap (λ o. same_text k (key_of o)) (sym at) ∙ e), ground (arith, idle))

    IsHarmless-when_allowed :
        (m limit : ℕ) (fetch : Bool) (s : OriginCursor Item) (a : OriginOutcome Item)
        → (same_text k (key_of s.origin) ≡ true → is_allowed_decision a.decision ≡ false)
        → IsHarmless a
        → IsHarmless (
            if fetch && is_allowed_decision a.decision
            then fetch_origin r m s limit a.decision
            else a)
    IsHarmless-when_allowed m limit fetch s a denied h =
        elim (Bool-cases (fetch && is_allowed_decision a.decision)) [
          | inl q ↦ rw q (
              IsHarmless-fetch_origin m limit s a.decision
                (elim (Bool-cases (same_text k (key_of s.origin))) [
                  | inl e ↦ let d = denied e in ground (arith, d, q)
                  | inr e ↦ e
                ]))
          | inr q ↦ rw q h
        ]

    IsHarmless-work_on :
        (m n : ℕ) (fetch : Bool) (known : Option Bool) (s : OriginCursor Item)
        (a : OriginOutcome Item)
        → (same_text k (key_of s.origin) ≡ true → is_allowed_decision a.decision ≡ false)
        → IsHarmless a
        → IsHarmless (work_on r m n fetch known s a)
    unfolding work_on
    IsHarmless-work_on m n fetch (some false) s a denied h = h
    IsHarmless-work_on m n fetch none s a denied h = IsHarmless-when_allowed m _ fetch s a denied h
    IsHarmless-work_on m n fetch (some true) s a denied h =
        IsHarmless-when_allowed m _ fetch s a denied h

    IsHarmless-work :
        (m n : ℕ) (fetch : Bool) (known : Key → Option Bool) (s : OriginCursor Item)
        → IsHarmless (work r m n fetch known s)
    unfolding work authorize_origin
    IsHarmless-work m n fetch known s =
        let plain = authorize_plain m r.global_list_grant s.origin in
        let denied = authorize_denied m s.origin in
        IsHarmless-work_on m n fetch (known (key_of s.origin)) s _ denied
          (IsHarmless-plain s _ plain.0 plain.1 denied)

    AllHarmless-with_outcome :
        (m n j : ℕ) (served fetch : Bool) (known : Key → Option Bool)
        (found : Option (OriginCursor Item)) (later : List (ℕ × OriginOutcome Item))
        → AllHarmless later
        → AllHarmless (with_outcome j served (work r m n fetch known) found later)
    unfolding with_outcome AllHarmless
    AllHarmless-with_outcome m n j true fetch known (some s) later h =
        (IsHarmless-work m n fetch known s, h)
    AllHarmless-with_outcome m n j true fetch known none later h = h
    AllHarmless-with_outcome m n j false fetch known (some s) later h = h
    AllHarmless-with_outcome m n j false fetch known none later h = h

    pub AllHarmless-run_origin_workers :
        (m : ℕ) (fetch : Bool) (known : Key → Option Bool) (os : List (OriginCursor Item))
        (indices : List ℕ)
        → AllHarmless (run_origin_workers r m fetch known os indices)
    unfolding run_origin_workers AllHarmless
    AllHarmless-run_origin_workers m fetch known os [] = tt
    AllHarmless-run_origin_workers m fetch known os (j ∷ js) =
        AllHarmless-with_outcome m (length os) j (r.is_served m j) fetch known (get_elem? os j) _
          (AllHarmless-run_origin_workers m fetch known os js)
